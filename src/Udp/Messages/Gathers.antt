-- ===== src/Udp/Messages/Gathers.antt =====
-- What the kernel is given through the structures of src/udp.rs.
use lidi.Prelude.{
  ℕ, suc, ◌+◌, ◌^◌, ◌≤◌, ◌≡◌, refl, ap, sym, ◌∙◌, some, List, [], ◌∷◌, ◌++◌, map, length, take,
  arith, ltb, Bool-cases, inl, inr, append_assoc, take_all, length-append,
}
use lidi.Prelude.Outcome.{Outcome, ok, err, panic, ◌>>=◌}
use lidi.Udp.{Error, fits}
use lidi.Udp.Kernel.{Iovec, Msghdr, Mmsghdr, Kernel, Documented, gathered_all}
use lidi.Prelude.Slices.{get_elem?-append_length}
use lidi.Udp.Messages.{vector_of, Headers, also_set, set_chunk}

-- The structures once datagrams have been put into them.
abbrev pub set_headers : List (List ℕ) → List Mmsghdr → List Mmsghdr
set_headers [] hs = hs
set_headers (d ∷ ds) [] = []
set_headers (d ∷ ds) (h ∷ hs) = record h { msg_len = length d } ∷ set_headers ds hs

abbrev pub set_vectors : List (List ℕ) → List (Iovec (List ℕ)) → List (Iovec (List ℕ))
set_vectors [] vs = vs
set_vectors (d ∷ ds) [] = []
set_vectors (d ∷ ds) (v ∷ vs) = vector_of d ∷ set_vectors ds vs

pub length-set_vectors :
    (ds : List (List ℕ)) (vs : List (Iovec (List ℕ))) → length (set_vectors ds vs) ≡ length vs
length-set_vectors [] vs = refl
length-set_vectors (d ∷ ds) [] = refl
length-set_vectors (d ∷ ds) (v ∷ vs) = ap suc (length-set_vectors ds vs)

pub length-set_headers :
    (ds : List (List ℕ)) (hs : List Mmsghdr) → length (set_headers ds hs) ≡ length hs
length-set_headers [] hs = refl
length-set_headers (d ∷ ds) [] = refl
length-set_headers (d ∷ ds) (h ∷ hs) = ap suc (length-set_headers ds hs)

-- A header to `dest` whose `iovec` is the one at `place`.
pub record Addressed (dest : List ℕ) (place : ℕ) (h : Msghdr) : Type 0 where
  pub name : h.msg_name ≡ some dest
  pub namelen : h.msg_namelen ≡ length dest
  pub iov : h.msg_iov ≡ some place
  pub one : h.msg_iovlen ≡ 1

-- Headers to `dest` with one `iovec` each, from the one at `place` on.
abbrev pub Pointing : List ℕ → ℕ → List Mmsghdr → Type 0
Pointing dest place [] = Unit
Pointing dest place (h ∷ hs) = Addressed dest place h.msg_hdr × Pointing dest (place + 1) hs

pub Pointing-set_headers :
    (dest : List ℕ) (place : ℕ) (ds : List (List ℕ)) (hs : List Mmsghdr)
    → Pointing dest place hs
    → Pointing dest place (set_headers ds hs)
Pointing-set_headers dest place [] hs p = p
Pointing-set_headers dest place (d ∷ ds) [] p = tt
Pointing-set_headers dest place (d ∷ ds) (h ∷ hs) p =
    (p.0, Pointing-set_headers dest (place + 1) ds hs p.1)

pub gathered-one :
    (kernel : Kernel) (dest datagram : List ℕ) (h : Msghdr) (before after : List (Iovec (List ℕ)))
    → Documented kernel
    → Addressed dest (length before) h
    → kernel.gathered (before ++ vector_of datagram ∷ after) h ≡ some (dest, datagram)
gathered-one kernel dest datagram h before after documented a =
    documented.gathers (before ++ vector_of datagram ∷ after) h (vector_of datagram) dest datagram
      (record {
        place = length before;
        iov = a.iov;
        at = get_elem?-append_length before (vector_of datagram) after;
        one = a.one;
      })
      a.name refl
    ∙ rw (a.namelen) (
        cc (
          take_all (length dest) dest (omega arith),
          take_all (length datagram) datagram (omega arith),
        ))

abbrev pub to : List ℕ → List (List ℕ) → List (List ℕ × List ℕ)
to dest = map (λ datagram. (dest, datagram))

one_more :
    (kernel : Kernel) (iovecs : List (Iovec (List ℕ))) (h : Mmsghdr) (hs : List Mmsghdr)
    (m : List ℕ × List ℕ) (ms : List (List ℕ × List ℕ))
    → kernel.gathered iovecs h.msg_hdr ≡ some m
    → gathered_all kernel iovecs hs ≡ some ms
    → gathered_all kernel iovecs (h ∷ hs) ≡ some (m ∷ ms)
one_more kernel iovecs h hs m ms e e' = rw (e, e')

-- The kernel is given exactly the datagrams, each with the address.
pub gathered-set :
    (kernel : Kernel) (dest : List ℕ) (ds : List (List ℕ)) (hs : List Mmsghdr)
    (vs before : List (Iovec (List ℕ)))
    → Documented kernel
    → Pointing dest (length before) hs
    → length ds ≤ length hs
    → length ds ≤ length vs
    → gathered_all kernel (before ++ set_vectors ds vs) (take (length ds) (set_headers ds hs))
      ≡ some (to dest ds)
gathered-set kernel dest [] hs vs before doc p h h' = refl
gathered-set kernel dest (d ∷ ds) [] vs before doc p h h' = absurd (omega arith)
gathered-set kernel dest (d ∷ ds) (m ∷ hs) [] before doc p h h' = absurd (omega arith)
gathered-set kernel dest (d ∷ ds) (m ∷ hs) (v ∷ vs) before doc p h h' =
    let before' = before ++ vector_of d ∷ [] in
    let len : length before' ≡ length before + 1 =
      omega (arith, length-append before (vector_of d ∷ [])) in
    one_more kernel (before ++ vector_of d ∷ set_vectors ds vs) (record m { msg_len = length d })
      (take (length ds) (set_headers ds hs)) (dest, d) (to dest ds)
      (gathered-one kernel dest d m.msg_hdr before (set_vectors ds vs) doc p.0)
      (ap (λ l. gathered_all kernel l (take (length ds) (set_headers ds hs)))
          (sym (append_assoc before (vector_of d ∷ []) (set_vectors ds vs)))
        ∙ gathered-set kernel dest ds hs vs before' doc (rw len p.1) (omega arith) (omega arith))

and_set :
    (h : Mmsghdr) (v : Iovec (List ℕ)) (o : Outcome Error (Unit {0})) (x : Headers)
    → also_set h v (o >>= λ _. ok x) ≡ (o >>= λ _. ok (h ∷ x.0, v ∷ x.1))
and_set h v (ok _) x = refl
and_set h v (err e) x = refl
and_set h v panic x = refl

pub set_chunk-fits :
    (ds : List (List ℕ)) (hs : List Mmsghdr) (vs : List (Iovec (List ℕ)))
    → length ds ≤ length hs
    → length ds ≤ length vs
    → set_chunk ds hs vs ≡ (fits ds >>= λ _. ok (set_headers ds hs, set_vectors ds vs))
unfolding set_chunk
set_chunk-fits [] hs vs h h' = refl
set_chunk-fits (d ∷ ds) [] vs h h' = absurd (omega arith)
set_chunk-fits (d ∷ ds) (_ ∷ hs) [] h h' = absurd (omega arith)
set_chunk-fits (d ∷ ds) (m ∷ hs) (v ∷ vs) h h' = elim (Bool-cases (ltb (length d) (2 ^ 32))) [
  | inl short ↦ rw short (
      ap (also_set (record m { msg_len = length d }) (vector_of d))
        (set_chunk-fits ds hs vs (omega arith) (omega arith))
      ∙ and_set (record m { msg_len = length d }) (vector_of d) (fits ds)
          (set_headers ds hs, set_vectors ds vs))
  | inr long ↦ rw long refl
]
