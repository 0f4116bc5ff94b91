-- ===== src/Udp/Messages.antt =====
-- `SendM` of src/udp.rs over the structures that it hands to the kernel. `Udp.send` is what it does to
-- the socket.
pub mod Gathers
mod Rounds
pub mod Refines
use lidi.Prelude.{
  ℕ, zero, suc, ◌+◌, ◌^◌, Option, none, some, Bool, true, false, ◌&&◌, List, [], ◌∷◌, map, length,
  take, drop, replicate, ltb, ◌==◌, if◌then◌else◌, String,
}
use lidi.Prelude.Outcome.{Outcome, ok, err, panic, ◌>>=◌}
use lidi.Protocol.Crate.{Raptorq}
use lidi.Udp.{Error, invalid_data, Socket, submit}
use lidi.Udp.Kernel.{
  Iovec, Msghdr, Mmsghdr, zeroed_iovec, zeroed_mmsghdr, zeroed_msghdr, Kernel, gathered_all,
}

pub data SendM : Type 0 where
  msg : Msghdr → Iovec (List ℕ) → SendM
  mmsg : ℕ → List Mmsghdr → List (Iovec (List ℕ)) → SendM

-- A header to `dest` with one `iovec`, at `place`.
abbrev pub addressed : List ℕ → ℕ → ℕ → Msghdr → Msghdr
addressed dest dest_len place h = record h {
  msg_name = some dest;
  msg_namelen = dest_len;
  msg_iov = some place;
  msg_iovlen = 1;
}

-- `for i in 0..batch_size`
pub headers : List ℕ → ℕ → ℕ → List Mmsghdr → List Mmsghdr
headers dest dest_len i [] = []
headers dest dest_len i (h ∷ hs) =
    record h { msg_hdr = addressed dest dest_len i h.msg_hdr } ∷ headers dest dest_len (i + 1) hs

-- `SendM::new`
unfoldable pub new : Option ℕ → List ℕ → ℕ → SendM
unfolding headers
new none dest dest_len = msg (addressed dest dest_len 0 zeroed_msghdr) zeroed_iovec
new (some n) dest dest_len =
    if n == 1
    then msg (addressed dest dest_len 0 zeroed_msghdr) zeroed_iovec
    else mmsg n (headers dest dest_len 0 (replicate n zeroed_mmsghdr)) (replicate n zeroed_iovec)

abbrev pub vector_of : List ℕ → Iovec (List ℕ)
vector_of datagram = record { iov_base = some datagram; iov_len = length datagram }

abbrev pub same_name : List ℕ → List ℕ → Bool
same_name [] [] = true
same_name [] (b ∷ bs) = false
same_name (a ∷ l) [] = false
same_name (a ∷ l) (b ∷ bs) = a == b && same_name l bs

-- The messages to the address `peer`, of which the kernel says the name and the bytes.
pub addressed_to : List ℕ → List (List ℕ × List ℕ) → List (List ℕ)
addressed_to peer [] = []
addressed_to peer ((name, bytes) ∷ messages) =
    let rest = addressed_to peer messages in if same_name name peer then bytes ∷ rest else rest

-- A call with these messages, on a socket that records what goes to `peer`; a fault is a `panic` here.
unfoldable pub call :
    List ℕ → String → Option (List (List ℕ × List ℕ)) → Socket → Outcome Error Socket
unfolding addressed_to
call peer label none s = panic
call peer label (some messages) s = submit label (addressed_to peer messages) s

abbrev pub one_message : Option (List ℕ × List ℕ) → Option (List (List ℕ × List ℕ))
one_message none = none
one_message (some m) = some (m ∷ [])

abbrev pub Headers : Type 0
Headers = List Mmsghdr × List (Iovec (List ℕ))

abbrev pub also_set : Mmsghdr → Iovec (List ℕ) → Outcome Error Headers → Outcome Error Headers
also_set h v (ok (hs, vs)) = ok (h ∷ hs, v ∷ vs)
also_set h v (err e) = err e
also_set h v panic = panic

-- A chunk is put into the structures, from the first on.
pub set_chunk : List (List ℕ) → List Mmsghdr → List (Iovec (List ℕ)) → Outcome Error Headers
set_chunk [] hs vs = ok (hs, vs)
set_chunk (datagram ∷ datagrams) (h ∷ hs) (v ∷ vs) =
    if ltb (length datagram) (2 ^ 32)
    then also_set (record h { msg_len = length datagram }) (vector_of datagram)
        (set_chunk datagrams hs vs)
    else err (invalid_data "datagram.len()")
set_chunk (datagram ∷ datagrams) [] vs = panic
set_chunk (datagram ∷ datagrams) (h ∷ hs) [] = panic

module _ (kernel : Kernel) (peer : List ℕ) where
  -- The branch of `SendM::Msg`
  pub send_msgs : Msghdr → Iovec (List ℕ) → List (List ℕ) → Socket → Outcome Error (SendM × Socket)
  send_msgs h v [] s = ok (msg h v, s)
  send_msgs h v (datagram ∷ datagrams) s = do
    s' ←
        call peer "libc::sendmsg failed" (one_message (kernel.gathered (vector_of datagram ∷ []) h))
          s
    send_msgs h (vector_of datagram) datagrams s'

  -- The branch of `SendM::Mmsg`, with a round for each chunk
  pub send_mmsgs :
      ℕ
      → ℕ
      → List Mmsghdr
      → List (Iovec (List ℕ))
      → List (List ℕ)
      → Socket
      → Outcome Error (SendM × Socket)
  send_mmsgs fuel n hs vs [] s = ok (mmsg n hs vs, s)
  send_mmsgs zero n hs vs (datagram ∷ datagrams) s = panic
  send_mmsgs (suc fuel) n hs vs (datagram ∷ datagrams) s = do
    let chunk = take n (datagram ∷ datagrams)
    (hs', vs') ← set_chunk chunk hs vs
    s' ← call peer "libc::sendmmsg" (gathered_all kernel vs' (take (length chunk) hs')) s
    send_mmsgs fuel n hs' vs' (drop n (datagram ∷ datagrams)) s'

  -- `chunks_mut` panics at 0.
  abbrev pub send_datagrams : SendM → List (List ℕ) → Socket → Outcome Error (SendM × Socket)
  send_datagrams (msg h v) datagrams s = send_msgs h v datagrams s
  send_datagrams (mmsg zero hs vs) datagrams s = panic
  send_datagrams (mmsg (suc n) hs vs) datagrams s =
      send_mmsgs (length datagrams) (suc n) hs vs datagrams s

  -- `SendM::send`
  unfoldable pub send :
      (crate : Raptorq) → SendM → List crate.Packet → Socket → Outcome Error (SendM × Socket)
  unfolding send_msgs send_mmsgs
  send crate m packets s = send_datagrams m (map crate.serialize packets) s
