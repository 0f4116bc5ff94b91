-- ===== src/Programs/DiodeSend.antt =====
-- src/bin/diode-send.rs: the sender for clients that connect over TCP or Unix sockets. A socket is
-- known by a number, an address and a path by a text.
pub mod Accepts
use lidi.Prelude.{
  ℕ, zero, suc, Option, none, some, Bool, true, false, List, [], ◌∷◌, ◌++◌, if◌then◌else◌, String,
}
use lidi.Prelude.Outcome.{Outcome, ok, err, panic}
use lidi.Protocol
use lidi.Protocol.RaptorQ
use lidi.Protocol.RaptorQ.{RaptorQ}
use lidi.Threads.{Thread}
use lidi.Threads.Launch.{threads_of}
use lidi.Send.Sender
use lidi.Send.Sender.{Config, Sender, Worker, new_client}
use lidi.Programs
use lidi.Programs.{Exit, returned, World}

pub record Args : Type 0 where
  pub from_tcp : Option String
  pub from_unix : Option String
  pub max_clients : ℕ
  pub encode_threads : ℕ
  pub heartbeat : Option ℕ
  pub flush : Bool
  pub to_mtu : ℕ
  pub batch : Option ℕ
  pub block : ℕ
  pub repair : ℕ
  pub cpu_affinity : Bool
  pub hash : Bool

pub data Client : Type 0 where
  tcp unix : ℕ → Client

-- `tcp_listener_loop` and `unix_listener_loop`, by the constructor of `Client`; `incoming` is what has
-- come so far, `none` for a failure to accept. A client that cannot be queued is dropped.
pub listener_loop :
    (ℕ → Client) → List (Option ℕ) → Sender Client → Outcome Sender.Error (Sender Client)
listener_loop client [] s = ok s
listener_loop client (none ∷ incoming) s = ok s
listener_loop client (some socket ∷ incoming) s = elim (new_client (client socket) s) [
  | ok s' ↦ listener_loop client incoming s'
  | err e ↦ listener_loop client incoming s
  | panic ↦ panic
]

-- What the file system and the network answer.
pub record Sockets : Type 0 where
  pub tcp_binds : String → Bool
  pub unix_exists : String → Bool
  pub unix_binds : String → Bool

pub data Listener : Type 0 where
  tcp_listener unix_listener : String → Listener

-- What `main` has done: the sockets it has bound, the listeners that run, the workers, and its end.
pub record Ran : Type 0 where
  pub bound : List Listener
  pub listening : List Listener
  pub workers : List (Thread Worker)
  pub exit : Exit

abbrev stopped : List Listener → Exit → Ran
stopped bound e = record { bound = bound; listening = []; workers = []; exit = e }

abbrev pub config : Args → Config
config args = record {
  max_clients = args.max_clients;
  flush = args.flush;
  nb_encode_threads = args.encode_threads;
  heartbeat_interval = args.heartbeat;
  to_mtu = args.to_mtu;
  batch_send = args.batch;
  cpu_affinity = args.cpu_affinity;
  hash = args.hash;
}

-- The scope: a thread for each listener, with `expect`, then the sender's.
abbrev scope : List Listener → List Listener → Config → Option (List ℕ) → List Listener → ℕ → Ran
scope bound listening c core_ids [] limit = record {
  bound = bound;
  listening = listening;
  workers = threads_of (Sender.start c core_ids limit);
  exit = returned;
}
scope bound listening c core_ids (listener ∷ listeners) zero = record {
  bound = bound;
  listening = listening;
  workers = [];
  exit = Programs.panicked;
}
scope bound listening c core_ids (listener ∷ listeners) (suc limit) =
    scope bound (listening ++ listener ∷ []) c core_ids listeners limit

module _ (world : World) (sockets : Sockets) where
  abbrev bind_unix : Args → List Listener → Config → Option String → Ran
  bind_unix args bound c none = scope bound [] c world.core_ids bound world.limit
  bind_unix args bound c (some from_unix) =
      if sockets.unix_exists from_unix
      then stopped bound returned
      else (if sockets.unix_binds from_unix
          then scope (bound ++ unix_listener from_unix ∷ []) [] c world.core_ids
              (bound ++ unix_listener from_unix ∷ []) world.limit
          else stopped bound returned)

  abbrev bind_tcp : Args → Config → Option String → Ran
  bind_tcp args c none = bind_unix args [] c args.from_unix
  bind_tcp args c (some from_tcp) =
      if sockets.tcp_binds from_tcp
      then bind_unix args (tcp_listener from_tcp ∷ []) c args.from_unix
      else stopped [] returned

  abbrev with_sender : Args → Outcome Sender.Error (Sender Client) → Ran
  with_sender args (ok s) = bind_tcp args s.config args.from_tcp
  with_sender args (err _) = stopped [] returned
  with_sender args panic = stopped [] Programs.panicked

  abbrev with_raptorq : Args → Outcome Protocol.Error RaptorQ → Ran
  with_raptorq args (ok raptorq) =
      with_sender args (Sender.new world.semaphore (config args) raptorq)
  with_raptorq args (err _) = stopped [] returned
  with_raptorq args panic = stopped [] Programs.panicked

  unfoldable pub main : Args → Ran
  main args =
      if world.has_logger
      then with_raptorq args (RaptorQ.new args.to_mtu args.block args.repair 0)
      else stopped [] returned
