-- ===== src/Receive/Clients.antt =====
-- src/receive/clients.rs: the worker that runs the client workers, one after another, and
-- src/receive/udp.rs: the worker that receives the datagrams. What they receive is a list, of
-- which the end is a closed channel, or no more datagrams. What setting the
-- socket up returns is a parameter.
pub mod Serves
use lidi.Prelude.{
  ℕ, ◌*◌, ◌%◌, ◌^◌, Option, none, some, List, [], ◌∷◌, Bool, ltb, if◌then◌else◌, String,
}
use lidi.Prelude.Outcome.{Outcome, ok, err, panic, ◌>>=◌}
use lidi.Protocol.Block.{ClientId}
use lidi.Protocol.RaptorQ.{RaptorQ, nb_packets}
use lidi.Stream.{Writer}
use lidi.Udp
use lidi.Udp.Options.{Setup, set_socket_recv_buffer_size, get_socket_recv_buffer_size}
use lidi.Udp.{Arrival, recv}
use lidi.Receive.{Datagrams}
use lidi.Receive.Reblock.{window_width}
use lidi.Receive.Client
use lidi.Receive.Client.{Message, End, client_end, failed, panicked, waiting}

-- A transfer: its client, what `client_new` returns for it, and what comes on its channel.
pub record Transferring : Type 0 where
  pub client_id : ClientId
  pub client_new : Outcome Client.Error Writer
  pub messages : List Message

pub data Action : Type 0 where
  -- `multiplex_control`
  wait signal : Action
  -- what a client worker has written, and how it ended
  served : ClientId → Writer → End → Action

-- How the worker stands: it has returned an error, or panicked, or waits within a client worker.
pub data Stopped : Type 0 where
  disconnected crashed blocked : Stopped

abbrev pub Ran : Type 0
Ran = List Action × Stopped

-- A round, from how the client's worker ended: an error is logged; a panic takes this worker along
-- before it signals.
abbrev pub round : ClientId → Outcome Client.Error (Writer × End) → Ran → Ran
round id (ok (w, client_end flag)) (actions, s) =
    (wait ∷ served id w (client_end flag) ∷ signal ∷ actions, s)
round id (ok (w, failed e)) (actions, s) = (wait ∷ served id w (failed e) ∷ signal ∷ actions, s)
round id (ok (w, panicked)) rest = (wait ∷ served id w panicked ∷ [], crashed)
round id (ok (w, waiting)) rest = (wait ∷ served id w waiting ∷ [], blocked)
round id (err e) (actions, s) = (wait ∷ signal ∷ actions, s)
round id panic rest = (wait ∷ [], crashed)

module _ (flush : Bool) where
  pub start : List Transferring → Ran
  start [] = ([], disconnected)
  start (t ∷ transfers) =
      round t.client_id (Client.start flush t.client_new t.messages) (start transfers)

-- The size asked for the socket's buffer: `i32` products, of which the release build keeps the low 32
-- bits.
unfoldable pub buffer_size : RaptorQ → ℕ → Outcome Udp.Error ℕ
buffer_size q from_mtu =
    if ltb (nb_packets q) (2 ^ 31)
    then ok (window_width * nb_packets q % 2 ^ 32 * from_mtu % 2 ^ 32)
    else err (Udp.Error.other "nb_packets")

-- The loop of `udp::start`: what is sent to reblock, and what ends it; `none` while it waits.
unfoldable pub receive_loop :
    ℕ → Option ℕ → List Arrival → List Datagrams × Option (Outcome Udp.Error Unit)
receive_loop from_mtu batch_receive [] = ([], none)
receive_loop from_mtu batch_receive (arrival ∷ arrivals) =
    elim (recv from_mtu batch_receive arrival) [
      | ok datagrams ↦
          let rest = receive_loop from_mtu batch_receive arrivals in (datagrams ∷ rest.0, rest.1)
      | err e ↦ ([], some (err e))
      | panic ↦ ([], some panic)
    ]

-- What comes before the loop of `udp::start`; the size that the socket has is only logged.
abbrev set_up : Setup → RaptorQ → ℕ → Outcome Udp.Error ℕ
set_up setup q from_mtu = do
  _ ← setup.bind
  _ ← setup.set_nonblocking
  size ← buffer_size q from_mtu
  _ ← set_socket_recv_buffer_size setup.options size
  get_socket_recv_buffer_size setup.options

unfoldable pub start_udp :
    Setup → RaptorQ → ℕ → Option ℕ → List Arrival → List Datagrams × Option (Outcome Udp.Error Unit)
start_udp setup q from_mtu batch_receive arrivals = elim (set_up setup q from_mtu) [
  | ok _ ↦ receive_loop from_mtu batch_receive arrivals
  | err e ↦ ([], some (err e))
  | panic ↦ ([], some panic)
]
