-- ===== src/File/Listen.antt =====
-- `receive_files` of src/aux/file/receive.rs and what its listeners do, and the configuration of both
-- ends. What the system answers is a record; the directory is as each client finds it.
pub mod Takes
use lidi.Prelude.{
  ℕ, zero, suc, Option, none, some, Bool, List, [], ◌∷◌, ◌++◌, map, if◌then◌else◌, String,
}
use lidi.Prelude.Outcome.{Outcome, ok, err, panic}
use lidi.Stream.{IoError, failed, Reader, Writer}
use lidi.Diode.{DiodeReceive, Listener, tcp_listener, unix_listener}
use lidi.File
use lidi.File.{Error, other, Hasher}
use lidi.File.Receive.{Directory, receive_file}
use lidi.File.Sessions.{Accepted, accept_loop}

-- `file::Config`, over one of the ends of the diode
pub record Config (D : Type 0) : Type 0 where
  pub diode : D
  pub buffer_size : ℕ
  pub hash : Bool
  pub max_files : ℕ

abbrev pub for_one_file : {D : Type 0} → Config D → File.Config
for_one_file c = record { buffer_size = c.buffer_size; hash = c.hash }

-- `limit` is the number of threads that can be spawned.
pub record Host (Addr : Type 0) : Type 0 where
  pub is_dir : String → Bool
  pub exists : String → Bool
  pub bind_tcp : Addr → Outcome IoError Unit
  pub bind_unix : String → Outcome IoError Unit
  pub limit : ℕ

-- The listeners that run, and what the scope's closure returns.
abbrev pub Listening : Type 0 → Type 0
Listening Addr = List (Listener Addr) × Outcome Error Unit

module _ {Addr : Type 0} where
  -- Binding, then a thread, then what follows.
  abbrev serve :
      Listener Addr
      → Outcome IoError Unit
      → List (Listener Addr)
      → ℕ
      → (List (Listener Addr) → ℕ → Listening Addr)
      → Listening Addr
  serve listener (ok _) running zero next = (running, err (Error.io failed))
  serve listener (ok _) running (suc limit) next = next (running ++ listener ∷ []) limit
  serve listener (err e) running limit next = (running, err (Error.io e))
  serve listener panic running limit next = (running, panic)

  abbrev listen_tcp : Host Addr → Option Addr → List (Listener Addr) → ℕ → Listening Addr
  listen_tcp host none running limit = (running, ok tt)
  listen_tcp host (some from_tcp) running limit =
      serve (tcp_listener from_tcp) (host.bind_tcp from_tcp) running limit
        (λ running' _. (running', ok tt))

  abbrev listen_unix : Host Addr → Option String → Option Addr → Listening Addr
  listen_unix host none from_tcp = listen_tcp host from_tcp [] host.limit
  listen_unix host (some from_unix) from_tcp =
      if host.exists from_unix
      then ([], err (other "Unix socket path already exists"))
      else serve (unix_listener from_unix) (host.bind_unix from_unix) [] host.limit
          (listen_tcp host from_tcp)

  unfoldable pub receive_files : Host Addr → Config (DiodeReceive Addr) → String → Listening Addr
  receive_files host config output_dir =
      if host.is_dir output_dir
      then listen_unix host config.diode.from_unix config.diode.from_tcp
      else ([], err (other "output_directory is not a directory"))

-- `receive_tcp_loop` and `receive_unix_loop`: what each accepted client's thread returns, and how the
-- loop ended.
unfoldable pub receive_clients :
    {Addr : Type 0} (hasher : Hasher)
    → Config (DiodeReceive Addr)
    → (List ℕ → Bool)
    → List (Outcome IoError (Directory × Reader))
    → Accepted (Option (Outcome Error (ℕ × Writer)))
receive_clients hasher config utf8 connections =
    let (clients, result) = accept_loop config.max_files 0 connections in
    (
      map
          (λ (client : Directory × Reader).
            receive_file hasher (for_one_file config) utf8 client.0 client.1)
          clients,
      result,
    )
