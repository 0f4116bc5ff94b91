-- ===== src/Udp/Buffers/Structures.antt =====
-- The structures of `Receive` of src/udp.rs, when they are new and once datagrams have come.
use lidi.Prelude.{
  ℕ, zero, suc, ◌+◌, ◌≡◌, ◌≢◌, ◌⊎◌, inl, inr, refl, ap, ◌∙◌, Option, none, some, List, [], ◌∷◌,
  length, replicate, length-replicate, ne→==,
}
use native.Mathlib.Decide.{ℕ_discrete}
use lidi.Udp.Kernel.{Mmsghdr, zeroed_mmsghdr, zeroed_iovec}
use lidi.Udp.Buffers.{Receive, msg, mmsg, based, headers, vectors, new}
use lidi.Udp.Buffers.Fills.{Points, Pointing, Sized, set_headers, set_buffers, length-overwrite}

-- Structures of `Receive` that are ready for datagrams.
abbrev pub Ready : ℕ → Option ℕ → Receive → Type 0
Ready size batch_receive (msg h v buffer) =
    Points 0 h
    × (v ≡ based size 0)
    × (length buffer ≡ size)
    × ((batch_receive ≡ none) ⊎ (batch_receive ≡ some 1))
Ready size batch_receive (mmsg n hs vs buffers) =
    (batch_receive ≡ some n)
    × (n ≢ 1)
    × (length hs ≡ n)
    × (length buffers ≡ n)
    × (vs ≡ vectors size 0 (replicate n zeroed_iovec))
    × Pointing 0 hs
    × Sized size buffers

headers-Pointing : (i : ℕ) (hs : List Mmsghdr) → Pointing i (headers i hs)
unfolding headers
headers-Pointing i [] = tt
headers-Pointing i (h ∷ hs) = (record { iov = refl; one = refl }, headers-Pointing (i + 1) hs)

length-headers : (i : ℕ) (hs : List Mmsghdr) → length (headers i hs) ≡ length hs
unfolding headers
length-headers i [] = refl
length-headers i (h ∷ hs) = ap suc (length-headers (i + 1) hs)

replicate-Sized : (n size : ℕ) → Sized size (replicate n (replicate size 0))
replicate-Sized zero size = tt
replicate-Sized (suc n) size = (length-replicate size 0, replicate-Sized n size)

pub new-Ready :
    (size : ℕ) (batch_receive : Option ℕ) → Ready size batch_receive (new size batch_receive)
unfolding new
new-Ready size none = (record { iov = refl; one = refl }, refl, length-replicate size 0, inl refl)
new-Ready size (some n) = elim (ℕ_discrete n 1) [
  | yes e ↦ rw e (record { iov = refl; one = refl }, refl, length-replicate size 0, inr refl)
  | no ne ↦ rw (ne→== n 1 ne) (
    refl,
    ne,
    length-headers 0 (replicate n zeroed_mmsghdr) ∙ length-replicate n zeroed_mmsghdr,
    length-replicate n (replicate size 0),
    refl,
    headers-Pointing 0 (replicate n zeroed_mmsghdr),
    replicate-Sized n size,
  )
]

pub set_headers-Pointing :
    (size place : ℕ) (ds : List (List ℕ)) (hs : List Mmsghdr)
    → Pointing place hs
    → Pointing place (set_headers size ds hs)
set_headers-Pointing size place [] hs p = p
set_headers-Pointing size place (d ∷ ds) [] p = tt
set_headers-Pointing size place (d ∷ ds) (h ∷ hs) p =
    (p.0, set_headers-Pointing size (place + 1) ds hs p.1)

pub length-set_headers :
    (size : ℕ) (ds : List (List ℕ)) (hs : List Mmsghdr)
    → length (set_headers size ds hs) ≡ length hs
length-set_headers size [] hs = refl
length-set_headers size (d ∷ ds) [] = refl
length-set_headers size (d ∷ ds) (h ∷ hs) = ap suc (length-set_headers size ds hs)

pub length-set_buffers :
    (size : ℕ) (ds bs : List (List ℕ)) → length (set_buffers size ds bs) ≡ length bs
length-set_buffers size [] bs = refl
length-set_buffers size (d ∷ ds) [] = refl
length-set_buffers size (d ∷ ds) (b ∷ bs) = ap suc (length-set_buffers size ds bs)

pub set_buffers-Sized :
    (size : ℕ) (ds bs : List (List ℕ)) → Sized size bs → Sized size (set_buffers size ds bs)
set_buffers-Sized size [] bs z = z
set_buffers-Sized size (d ∷ ds) [] z = tt
set_buffers-Sized size (d ∷ ds) (b ∷ bs) z =
    (length-overwrite size d b z.0, set_buffers-Sized size ds bs z.1)
