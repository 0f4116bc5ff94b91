-- ===== src/Tunnel/Sessions.antt =====
-- `send` of src/aux/udp/send.rs and `receive` of src/aux/udp/receive.rs, around the two loops. What
-- connecting, binding and accepting return are parameters: a UDP socket that is bound to receive
-- gives the datagrams that come on it, a listener the connections that it accepts.
pub mod Arrives
use lidi.Prelude.{ℕ, Option, none, some, Bool, List, [], ◌∷◌, ◌++◌, if◌then◌else◌, String}
use lidi.Prelude.Outcome.{Outcome, ok, err, panic, ◌>>=◌}
use lidi.Stream.{IoError, Reader, Writer}
use lidi.Diode.{DiodeSend, DiodeReceive}
use lidi.Tunnel
use lidi.Tunnel.{SendTo, Error, send_udp_aux, receive_udp}

-- `udp::Config`
pub record Config (D : Type 0) : Type 0 where
  pub diode : D
  pub buffer_size : ℕ

-- `send_udp_aux` from the binding of its socket on.
abbrev pub over_socket :
    ℕ → Writer → Outcome IoError (List (List ℕ)) → Option Writer × Outcome Error Unit
over_socket buffer_size diode (ok datagrams) =
    let (written, result) = send_udp_aux buffer_size datagrams diode in (some written, result)
over_socket buffer_size diode (err e) = (some diode, err (Tunnel.io e))
over_socket buffer_size diode panic = (some diode, panic)

abbrev pub over_diode :
    ℕ
    → Outcome IoError (List (List ℕ))
    → Outcome IoError Writer
    → Option Writer × Outcome Error Unit
over_diode buffer_size socket (ok diode) = over_socket buffer_size diode socket
over_diode buffer_size socket (err e) = (none, err (Tunnel.io e))
over_diode buffer_size socket panic = (none, panic)

-- `send`: the connection, if there is one, and how it ended
unfoldable pub send :
    {Addr : Type 0}
    → (DiodeSend Addr → Outcome IoError Writer)
    → (Addr → Outcome IoError (List (List ℕ)))
    → Config (DiodeSend Addr)
    → Addr
    → Option Writer × Outcome Error Unit
send connect bind config from_udp =
    over_diode config.buffer_size (bind from_udp) (connect config.diode)

pub record Host (Addr : Type 0) : Type 0 where
  pub exists : String → Bool
  pub bind_unix : String → Outcome IoError (List (Outcome IoError Reader))
  pub bind_tcp : Addr → Outcome IoError (List (Outcome IoError Reader))
  -- the socket's `send_to`, by the address that it sends to
  pub bind_udp : Addr → Outcome IoError (Addr → SendTo)

-- `receive_udp` for one client, with the binding of its socket.
abbrev pub one_client :
    ℕ → Outcome IoError SendTo → Reader → Option (List (List ℕ) × Outcome Error Unit)
one_client buffer_size (ok send_to) client = receive_udp send_to buffer_size client
one_client buffer_size (err e) client = some ([], err (Tunnel.io e))
one_client buffer_size panic client = some ([], panic)

-- What was sent, and how a loop over clients ended: `none` while it waits for the next one.
abbrev pub Served : Type 0
Served = List (List ℕ) × Option (Outcome Error Unit)

abbrev pub and_served : List (List ℕ) → Option Served → Option Served
and_served sent none = none
and_served sent (some (more, result)) = some (sent ++ more, result)

-- `receive_unix_loop` and `receive_tcp_loop`: the end of a client is logged.
pub client_loop : ℕ → Outcome IoError SendTo → List (Outcome IoError Reader) → Option Served
client_loop buffer_size socket [] = some ([], none)
client_loop buffer_size socket (connection ∷ connections) = elim connection [
  | ok client ↦ elim (one_client buffer_size socket client) [
    | none ↦ none
    | some (sent, result) ↦ elim result [
      | ok _ ↦ and_served sent (client_loop buffer_size socket connections)
      | err e ↦ and_served sent (client_loop buffer_size socket connections)
      | panic ↦ some (sent, some panic)
    ]
  ]
  | err e ↦ some ([], some (err (Tunnel.io e)))
  | panic ↦ some ([], some panic)
]

-- What follows a loop that has returned well, which it does not.
abbrev and_then : Option Served → Option Served → Option Served
and_then none next = none
and_then (some (sent, none)) next = some (sent, none)
and_then (some (sent, some (ok _))) next = and_served sent next
and_then (some (sent, some (err e))) next = some (sent, some (err e))
and_then (some (sent, some panic)) next = some (sent, some panic)

abbrev serve :
    ℕ → Outcome IoError SendTo → Outcome IoError (List (Outcome IoError Reader)) → Option Served
serve buffer_size socket (ok connections) = client_loop buffer_size socket connections
serve buffer_size socket (err e) = some ([], some (err (Tunnel.io e)))
serve buffer_size socket panic = some ([], some panic)

module _ {Addr : Type 0} (host : Host Addr) (buffer_size : ℕ) (to_udp_bind to_udp : Addr) where
  abbrev bound : Outcome IoError SendTo
  bound = do f ← host.bind_udp to_udp_bind; ok (f to_udp)

  abbrev receive_tcp : Option Addr → Option Served
  receive_tcp none = some ([], some (ok tt))
  receive_tcp (some from_tcp) = serve buffer_size bound (host.bind_tcp from_tcp)

  abbrev receive_from : Option String → Option Addr → Option Served
  receive_from none from_tcp = receive_tcp from_tcp
  receive_from (some from_unix) from_tcp =
      if host.exists from_unix
      then some ([], some (err (Tunnel.other "Unix socket path already exists")))
      else and_then (serve buffer_size bound (host.bind_unix from_unix)) (receive_tcp from_tcp)

unfoldable pub receive :
    {Addr : Type 0} → Host Addr → Config (DiodeReceive Addr) → Addr → Addr → Option Served
unfolding client_loop
receive host config to_udp_bind to_udp =
    receive_from host config.buffer_size to_udp_bind to_udp config.diode.from_unix
      config.diode.from_tcp
