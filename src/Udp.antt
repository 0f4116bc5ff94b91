-- ===== src/Udp.antt =====
-- src/udp.rs: datagrams through the kernel. The socket records what went out, and a list says what the
-- kernel does at the next calls: it takes all that it is given, or only so many datagrams, or
-- fails. The `msghdr` and `iovec` structures only point at the datagrams. `chunks` and `Receive`
-- follow the code's two modes, one datagram at a time or a batch.
pub mod Batches
pub mod Options
pub mod Kernel
pub mod Messages
pub mod Address
pub mod Buffers
use lidi.Prelude.{
  ℕ, zero, suc, ◌-◌, ◌^◌, min, max, Option, none, some, List, [], ◌∷◌, ◌++◌, map, length, take,
  drop, ltb, leb, ◌==◌, is_empty, if◌then◌else◌, String,
}
use lidi.Prelude.Outcome.{Outcome, ok, err, panic, ◌>>=◌}
use lidi.Protocol.Crate.{Raptorq}
use lidi.Receive.{Datagrams, single, multiple}

-- `io::Error`, with the start of its message
pub data Error : Type 0 where
  invalid_data other : String → Error

-- `none` in `faults` is a call that takes everything; `some k` one that takes `k` datagrams at most.
pub record Socket : Type 0 where
  pub wire : List (List ℕ)
  pub faults : List (Option ℕ)

-- `sendmmsg`, and `sendmsg` with one datagram: how many were taken
abbrev accepted : List (List ℕ) → List (Option ℕ) → ℕ
accepted datagrams [] = length datagrams
accepted datagrams (none ∷ faults) = length datagrams
accepted datagrams (some k ∷ faults) = min k (length datagrams)

abbrev later : List (Option ℕ) → List (Option ℕ)
later [] = []
later (fault ∷ faults) = faults

abbrev taken : List (List ℕ) → Socket → Socket
taken datagrams s = record {
  wire = s.wire ++ take (accepted datagrams s.faults) datagrams;
  faults = later s.faults;
}

abbrev submit : String → List (List ℕ) → Socket → Outcome Error Socket
submit label datagrams s =
    if accepted datagrams s.faults == length datagrams
    then ok (taken datagrams s)
    else err (other label)

-- `SendM::Msg`
pub send_each : List (List ℕ) → Socket → Outcome Error Socket
send_each [] s = ok s
send_each (datagram ∷ datagrams) s = do
  s' ← submit "libc::sendmsg failed" (datagram ∷ []) s
  send_each datagrams s'

-- `u32::try_from(datagram.len())`, for a batch
abbrev fits : List (List ℕ) → Outcome Error Unit
fits [] = ok tt
fits (datagram ∷ datagrams) =
    if ltb (length datagram) (2 ^ 32) then fits datagrams else err (invalid_data "datagram.len()")

-- `SendM::Mmsg`, over the chunks of at most `batch_size` datagrams: `chunks_mut` panics at 0. A chunk
-- takes a datagram, so as many rounds as datagrams are enough.
pub send_chunks : ℕ → ℕ → List (List ℕ) → Socket → Outcome Error Socket
send_chunks fuel batch_size [] s = ok s
send_chunks zero batch_size (datagram ∷ datagrams) s = panic
send_chunks (suc fuel) batch_size (datagram ∷ datagrams) s = do
  _ ← fits (take batch_size (datagram ∷ datagrams))
  s' ← submit "libc::sendmmsg" (take batch_size (datagram ∷ datagrams)) s
  send_chunks fuel batch_size (drop batch_size (datagram ∷ datagrams)) s'

abbrev send_batches : ℕ → List (List ℕ) → Socket → Outcome Error Socket
send_batches zero datagrams s = panic
send_batches (suc n) datagrams s = send_chunks (length datagrams) (suc n) datagrams s

-- The choice of `SendM::new`
abbrev with_mode : Option ℕ → List (List ℕ) → Socket → Outcome Error Socket
with_mode none datagrams s = send_each datagrams s
with_mode (some n) datagrams s =
    if n == 1 then send_each datagrams s else send_batches n datagrams s

-- `Send::send`
unfoldable pub send :
    (crate : Raptorq) → Option ℕ → List crate.Packet → Socket → Outcome Error Socket
unfolding send_each send_chunks
send crate batch_send packets s = with_mode batch_send (map crate.serialize packets) s

-- What a call of `recvmsg` or `recvmmsg` gives: the datagrams that came, at least one.
pub data Arrival : Type 0 where
  failed : Arrival
  came : List ℕ → List (List ℕ) → Arrival

-- The kernel cuts a datagram to the buffer.
abbrev cut : ℕ → List (List ℕ) → List (List ℕ)
cut udp_packet_size = map (take udp_packet_size)

-- `ReceiveMsg::recv` and `ReceiveMmsg::recv`
abbrev recv_single : ℕ → Arrival → Outcome Error Datagrams
recv_single udp_packet_size failed = err (other "libc::recvmsg")
recv_single udp_packet_size (came datagram others) = ok (single (take udp_packet_size datagram))

abbrev recv_batch : ℕ → ℕ → Arrival → Outcome Error Datagrams
recv_batch udp_packet_size batch_size failed = err (other "libc::recvmmsg")
recv_batch udp_packet_size batch_size (came datagram others) =
    ok (multiple (cut udp_packet_size (take batch_size (datagram ∷ others))))

-- `Receive::new`, then `Receive::recv`
unfoldable pub recv : ℕ → Option ℕ → Arrival → Outcome Error Datagrams
recv udp_packet_size none arrival = recv_single udp_packet_size arrival
recv udp_packet_size (some n) arrival =
    if n == 1 then recv_single udp_packet_size arrival else recv_batch udp_packet_size n arrival
