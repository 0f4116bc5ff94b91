-- ===== src/Udp/Kernel.antt =====
-- The structures of libc through which src/udp.rs and the kernel exchange datagrams. What the kernel
-- reads and writes through a header is a parameter. A pointer to an `iovec` is its place in the vector
-- that holds it, a pointer to bytes is these bytes, or, for a buffer to write to, its place among
-- the buffers; a null pointer is `none`.
use lidi.Prelude.{ℕ, ◌≤◌, ◌≡◌, Option, none, some, List, [], ◌∷◌, ◌++◌, take, drop, length}
use lidi.Prelude.Slices.{get_elem?}

pub record Iovec (P : Type 0) : Type 0 where
  pub iov_base : Option P
  pub iov_len : ℕ

pub record Msghdr : Type 0 where
  pub msg_name : Option (List ℕ)
  pub msg_namelen : ℕ
  pub msg_iov : Option ℕ
  pub msg_iovlen : ℕ

pub record Mmsghdr : Type 0 where
  pub msg_hdr : Msghdr
  pub msg_len : ℕ

-- `mem::zeroed`
abbrev pub zeroed_iovec : {P : Type 0} → Iovec P
zeroed_iovec = record { iov_base = none; iov_len = 0 }

abbrev pub zeroed_msghdr : Msghdr
zeroed_msghdr = record { msg_name = none; msg_namelen = 0; msg_iov = none; msg_iovlen = 0 }

abbrev pub zeroed_mmsghdr : Mmsghdr
zeroed_mmsghdr = record { msg_hdr = zeroed_msghdr; msg_len = 0 }

-- `sendmsg` reads an address and bytes through a header, `recvmsg` puts a datagram into the buffers and
-- says how many bytes came; `none` is a fault.
pub record Kernel : Type 0 where
  pub gathered : List (Iovec (List ℕ)) → Msghdr → Option (List ℕ × List ℕ)
  pub scattered : List (Iovec ℕ) → Msghdr → List ℕ → List (List ℕ) → Option (ℕ × List (List ℕ))

-- New bytes at the beginning of a buffer.
abbrev pub overwrite : List ℕ → List ℕ → List ℕ
overwrite bytes buffer = bytes ++ drop (length bytes) buffer

-- A header with one `iovec`, which is `v`.
pub record One {P : Type 0} (iovecs : List (Iovec P)) (h : Msghdr) (v : Iovec P) : Type 0 where
  pub place : ℕ
  pub iov : h.msg_iov ≡ some place
  pub at : get_elem? iovecs place ≡ some v
  pub one : h.msg_iovlen ≡ 1

-- What the manual says of headers with one `iovec`: of the bytes that are pointed at, as many are sent
-- as the lengths say; a datagram that comes is cut to the length of the `iovec`.
pub record Documented (k : Kernel) : Type 0 where
  pub gathers :
      (iovecs : List (Iovec (List ℕ))) (h : Msghdr) (v : Iovec (List ℕ)) (name bytes : List ℕ)
      → One iovecs h v
      → h.msg_name ≡ some name
      → v.iov_base ≡ some bytes
      → k.gathered iovecs h ≡ some (take h.msg_namelen name, take v.iov_len bytes)
  pub scatters :
      (iovecs : List (Iovec ℕ)) (h : Msghdr) (v : Iovec ℕ) (datagram buffer : List ℕ)
      (before after : List (List ℕ))
      → One iovecs h v
      → v.iov_base ≡ some (length before)
      → v.iov_len ≤ length buffer
      → k.scattered iovecs h datagram (before ++ buffer ∷ after)
        ≡ some (
          length (take v.iov_len datagram),
          before ++ overwrite (take v.iov_len datagram) buffer ∷ after,
        )

infixl 5 ◌>>=◌
abbrev pub ◌>>=◌ : {A B : Type 0} → Option A → (A → Option B) → Option B
none >>= f = none
some a >>= f = f a

module _ (k : Kernel) where
  -- `sendmmsg`: the messages of its headers
  abbrev pub gathered_all : List (Iovec (List ℕ)) → List Mmsghdr → Option (List (List ℕ × List ℕ))
  gathered_all iovecs [] = some []
  gathered_all iovecs (h ∷ hs) = do
    message ← k.gathered iovecs (h.msg_hdr)
    messages ← gathered_all iovecs hs
    some (message ∷ messages)

  -- `recvmmsg`: datagrams, one for each header from the first on, with the lengths of what came
  unfoldable pub scattered_all :
      List (Iovec ℕ)
      → List Mmsghdr
      → List (List ℕ)
      → List (List ℕ)
      → Option (List Mmsghdr × List (List ℕ))
  scattered_all iovecs hs [] buffers = some (hs, buffers)
  scattered_all iovecs [] (datagram ∷ datagrams) buffers = none
  scattered_all iovecs (h ∷ hs) (datagram ∷ datagrams) buffers = do
    (msg_len, buffers') ← k.scattered iovecs (h.msg_hdr) datagram buffers
    (hs', buffers'') ← scattered_all iovecs hs datagrams buffers'
    some (record h { msg_len = msg_len } ∷ hs', buffers'')
