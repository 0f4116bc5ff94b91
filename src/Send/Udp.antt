-- ===== src/Send/Udp.antt =====
-- src/send/udp.rs: the worker that sends the packets. What it receives is a list, of which the end is
-- a closed channel. What the calls that set the socket up return is a parameter.
pub mod Stops
use lidi.Prelude.{
  ℕ, zero, suc, ◌+◌, ◌-◌, ◌*◌, ◌%◌, ◌^◌, Option, none, some, List, [], ◌∷◌, ltb, if◌then◌else◌,
  String,
}
use lidi.Prelude.Outcome.{Outcome, ok, err, panic, ◌>>=◌, map_err}
use lidi.Protocol.Crate.{Raptorq}
use lidi.Protocol.RaptorQ.{RaptorQ, nb_packets}
use lidi.Udp
use lidi.Udp.{Socket, send}
use lidi.Udp.Options.{Setup, set_socket_send_buffer_size, get_socket_send_buffer_size}

pub data Error : Type 0 where
  io : Udp.Error → Error
  receive : Error
  other : String → Error

-- `i32` multiplication, which wraps in the release build: the low 32 bits.
unfoldable pub buffer_size : RaptorQ → ℕ → Outcome Error ℕ
buffer_size q to_mtu =
    if ltb (nb_packets q) (2 ^ 31)
    then ok (nb_packets q * to_mtu % 2 ^ 32)
    else err (other "nb_packets")

-- What happened to the socket, and how the worker returned; on an error, the socket as it was before
-- the `send` that failed, which may have taken some of its datagrams.
abbrev pub Ended : Type 0
Ended = Socket × Outcome Error Unit

module _ (crate : Raptorq) (batch_send : Option ℕ) where
  abbrev pub Packets : Type 0
  Packets = List crate.Packet

  -- The second loop: `count` end marks are still to come.
  pub wait_others : ℕ → List (Option Packets) → Socket → Ended
  wait_others zero messages s = (s, ok tt)
  wait_others (suc count) [] s = (s, err receive)
  wait_others (suc count) (none ∷ messages) s = wait_others count messages s
  wait_others (suc count) (some packets ∷ messages) s = elim (send crate batch_send packets s) [
    | ok s' ↦ wait_others (suc count) messages s'
    | err e ↦ (s, err (io e))
    | panic ↦ (s, panic)
  ]

  -- `nb_encode_threads - 1`, a `u8` that wraps in the release build
  pub loop : ℕ → List (Option Packets) → Socket → Ended
  unfolding wait_others
  loop nb_encode_threads [] s = (s, err receive)
  loop nb_encode_threads (none ∷ messages) s =
      wait_others ((nb_encode_threads + 2 ^ 8 - 1) % 2 ^ 8) messages s
  loop nb_encode_threads (some packets ∷ messages) s = elim (send crate batch_send packets s) [
    | ok s' ↦ loop nb_encode_threads messages s'
    | err e ↦ (s, err (io e))
    | panic ↦ (s, panic)
  ]

-- What comes before the loop; the size that the socket has is only logged.
abbrev set_up : Setup → RaptorQ → ℕ → Outcome Error ℕ
set_up setup q to_mtu = do
  _ ← map_err io setup.bind
  _ ← map_err io setup.set_nonblocking
  size ← buffer_size q to_mtu
  _ ← map_err io (set_socket_send_buffer_size setup.options size)
  map_err io (get_socket_send_buffer_size setup.options)

unfoldable pub start :
    (crate : Raptorq)
    → Setup
    → RaptorQ
    → (to_mtu nb_encode_threads : ℕ) → Option ℕ
    → List (Option (Packets crate none))
    → Socket
    → Ended
unfolding loop buffer_size
start crate setup q to_mtu nb_encode_threads batch_send messages s = elim (set_up setup q to_mtu) [
  | ok _ ↦ loop crate batch_send nb_encode_threads messages s
  | err e ↦ (s, err e)
  | panic ↦ (s, panic)
]
