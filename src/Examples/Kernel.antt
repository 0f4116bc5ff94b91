-- ===== src/Examples/Kernel.antt =====
-- A kernel that does what its manual says, and the theorems about src/udp.rs with it.
use lidi.Prelude.{
  ℕ, ◌≡◌, refl, ap, Option, none, some, List, [], ◌∷◌, length, take, set, ◌==◌, if◌then◌else◌,
  arith,
}
use lidi.Prelude.Slices.{get_elem?, get_elem?-append_length, set-append_length}
use lidi.Udp.{Socket, Arrival, came}
use lidi.Udp.Kernel.{Iovec, Msghdr, Kernel, One, Documented, overwrite, ◌>>=◌}
use lidi.Udp.Messages.Refines.{send_all, sent_all}
use lidi.Udp.Address.{little, SocketAddr, v4, new}
use lidi.Udp.Address.Layout.{expected, new-sends}
use lidi.Udp.Buffers
use lidi.Udp.Buffers.Receives.{receive_all, received_all, receive_all-refines}
use lidi.Examples.Crate.{crate}

-- Only headers with one `iovec` are followed.
abbrev only : {P : Type 0} → List (Iovec P) → Msghdr → Option (Iovec P)
only iovecs h = do place ← h.msg_iov; if h.msg_iovlen == 1 then get_elem? iovecs place else none

abbrev put : ℕ → List ℕ → List (List ℕ) → List ℕ → Option (ℕ × List (List ℕ))
put place bytes buffers buffer = some (length bytes, set buffers place (overwrite bytes buffer))

abbrev kernel : Kernel
kernel = record {
  gathered = λ iovecs h. do
    v ← only iovecs h
    bytes ← v.iov_base
    name ← h.msg_name
    some (take h.msg_namelen name, take v.iov_len bytes);
  scattered = λ iovecs h datagram buffers. do
    v ← only iovecs h
    place ← v.iov_base
    get_elem? buffers place >>= put place (take v.iov_len datagram) buffers;
}

only-One :
    {P : Type 0} (iovecs : List (Iovec P)) (h : Msghdr) (v : Iovec P)
    → One iovecs h v
    → only iovecs h ≡ some v
only-One iovecs h v o = rw (o.iov, o.one) (o.at)

kernel-Documented : Documented kernel
kernel-Documented = record {
  gathers = λ iovecs h v name bytes o named based. rw (only-One iovecs h v o, based, named) refl;
  scatters = λ iovecs h v datagram buffer before after o based room.
      rw (only-One iovecs h v o, based)
        (rw (get_elem?-append_length before buffer after) (
          ap (λ l. some (length (take v.iov_len datagram), l))
            (set-append_length before buffer (overwrite (take v.iov_len datagram) buffer) after)));
}

-- The second call takes one datagram of two.
abbrev socket : Socket
socket = record { wire = []; faults = none ∷ some 1 ∷ [] }

abbrev queue : List (List crate.Packet)
queue = ((1, 2 ∷ []) ∷ (1, 3 ∷ []) ∷ (1, []) ∷ []) ∷ ((2, 4 ∷ []) ∷ (2, 5 ∷ []) ∷ []) ∷ []

abbrev dest : SocketAddr
dest = v4 (192 ∷ 168 ∷ 1 ∷ 20 ∷ []) 5000

new-sends_example :
    send_all kernel (expected dest) crate (new little dest (some 4)) queue socket
    ≡ sent_all crate (some 4) queue socket
new-sends_example =
    new-sends kernel crate dest (some 4) queue socket kernel-Documented
      (refl, (omega arith), (omega arith))

-- The second datagram is longer than the buffer, and the third shorter than what it overwrites.
abbrev arrivals : List Arrival
arrivals = came (1 ∷ 2 ∷ 3 ∷ []) ((4 ∷ 5 ∷ 6 ∷ 7 ∷ 8 ∷ []) ∷ []) ∷ came (9 ∷ []) [] ∷ []

receive_all-refines_example :
    receive_all kernel (Buffers.new 4 (some 2)) arrivals ≡ received_all 4 (some 2) arrivals
receive_all-refines_example = receive_all-refines kernel kernel-Documented 4 (some 2) arrivals
