-- ===== src/Udp/Buffers.antt =====
-- `ReceiveMsg`, `ReceiveMmsg` and `Receive` of src/udp.rs over the structures through which the kernel
-- fills their buffers. `Udp.recv` is what they return.
mod Fills
mod Structures
pub mod Receives
use lidi.Prelude.{
  ℕ, zero, suc, ◌+◌, Option, none, some, List, [], ◌∷◌, length, take, replicate, ◌==◌,
  if◌then◌else◌, String,
}
use lidi.Prelude.Slices.{prefix}
use lidi.Prelude.Outcome.{Outcome, ok, err, panic, ◌>>=◌}
use lidi.Receive.{Datagrams, single, multiple}
use lidi.Udp.{Error, other, Arrival, failed, came}
use lidi.Udp.Kernel.{
  Iovec, Msghdr, Mmsghdr, zeroed_iovec, zeroed_msghdr, zeroed_mmsghdr, Kernel, scattered_all,
}

pub data Receive : Type 0 where
  msg : Msghdr → Iovec ℕ → List ℕ → Receive
  mmsg : ℕ → List Mmsghdr → List (Iovec ℕ) → List (List ℕ) → Receive

-- A header with one `iovec`, at `place`.
abbrev pub pointing : ℕ → Msghdr → Msghdr
pointing place h = record h { msg_iov = some place; msg_iovlen = 1 }

abbrev pub based : ℕ → ℕ → Iovec ℕ
based udp_packet_size place = record { iov_base = some place; iov_len = udp_packet_size }

-- The loops of `ReceiveMmsg::new`
pub headers : ℕ → List Mmsghdr → List Mmsghdr
headers i [] = []
headers i (h ∷ hs) = record h { msg_hdr = pointing i h.msg_hdr } ∷ headers (i + 1) hs

pub vectors : ℕ → ℕ → List (Iovec ℕ) → List (Iovec ℕ)
vectors udp_packet_size i [] = []
vectors udp_packet_size i (v ∷ vs) = based udp_packet_size i ∷ vectors udp_packet_size (i + 1) vs

-- `ReceiveMsg::new`
abbrev pub new_msg : ℕ → Receive
new_msg udp_packet_size =
    msg (pointing 0 zeroed_msghdr) (based udp_packet_size 0) (replicate udp_packet_size 0)

-- `ReceiveMmsg::new`
abbrev pub new_mmsg : ℕ → ℕ → Receive
new_mmsg udp_packet_size batch_size =
    mmsg batch_size (headers 0 (replicate batch_size zeroed_mmsghdr))
      (vectors udp_packet_size 0 (replicate batch_size zeroed_iovec))
      (replicate batch_size (replicate udp_packet_size 0))

-- `Receive::new`
unfoldable pub new : ℕ → Option ℕ → Receive
unfolding headers vectors
new udp_packet_size none = new_msg udp_packet_size
new udp_packet_size (some n) =
    if n == 1 then new_msg udp_packet_size else new_mmsg udp_packet_size n

-- What `recvmsg` has returned and filled; a fault is a `panic` here.
abbrev pub filled :
    Msghdr → Iovec ℕ → Option (ℕ × List (List ℕ)) → Outcome Error (Datagrams × Receive)
filled h v none = panic
filled h v (some (recv, [])) = panic
filled h v (some (recv, buffer ∷ buffers)) = do
  bytes ← prefix buffer recv
  ok (single bytes, msg h v buffer)

-- `self.buffers[0..nb_msg]` with the headers, each up to `msg_len`
pub collect : ℕ → List Mmsghdr → List (List ℕ) → Outcome Error (List (List ℕ))
collect zero hs buffers = ok []
collect (suc nb_msg) [] buffers = panic
collect (suc nb_msg) (h ∷ hs) [] = panic
collect (suc nb_msg) (h ∷ hs) (buffer ∷ buffers) = do
  bytes ← prefix buffer h.msg_len
  res ← collect nb_msg hs buffers
  ok (bytes ∷ res)

abbrev pub all_filled :
    ℕ
    → List (Iovec ℕ)
    → ℕ
    → Option (List Mmsghdr × List (List ℕ))
    → Outcome Error (Datagrams × Receive)
all_filled batch_size vs nb_msg none = panic
all_filled batch_size vs nb_msg (some (hs, buffers)) = do
  datagrams ← collect nb_msg hs buffers
  ok (multiple datagrams, mmsg batch_size hs vs buffers)

module _ (kernel : Kernel) where
  -- `Receive::recv`; `recvmmsg` brings `batch_size` datagrams at most.
  unfoldable pub recv : Receive → Arrival → Outcome Error (Datagrams × Receive)
  unfolding collect
  recv (msg h v buffer) failed = err (other "libc::recvmsg")
  recv (msg h v buffer) (came datagram others) =
      filled h v (kernel.scattered (v ∷ []) h datagram (buffer ∷ []))
  recv (mmsg batch_size hs vs buffers) failed = err (other "libc::recvmmsg")
  recv (mmsg batch_size hs vs buffers) (came datagram others) =
      let arrived = take batch_size (datagram ∷ others) in
      all_filled batch_size vs (length arrived) (scattered_all kernel vs hs arrived buffers)
