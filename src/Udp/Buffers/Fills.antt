-- ===== src/Udp/Buffers/Fills.antt =====
-- What the buffers of src/udp.rs hold.
use lidi.Prelude.{
  ℕ, zero, suc, ◌+◌, ◌≤◌, ◌<◌, ◌≡◌, refl, ap, sym, ◌∙◌, some, List, [], ◌∷◌, ◌++◌, length, take,
  drop, arith, le→leb, length-append, length-take, length-drop, take-append_length, append_assoc,
  All,
}
use lidi.Prelude.Slices.{get_elem?, prefix}
use lidi.Prelude.Outcome.{Outcome, ok}
use lidi.Udp.{Error, cut}
use lidi.Udp.Kernel.{Iovec, Msghdr, Mmsghdr, Kernel, Documented, overwrite, scattered_all}
use lidi.Udp.Buffers.{based, vectors, collect}

-- The `iovec` at a place is that of the buffer there.
vectors-at :
    (size i place : ℕ) (vs : List (Iovec ℕ))
    → place < length vs
    → get_elem? (vectors size i vs) place ≡ some (based size (i + place))
unfolding vectors
vectors-at size i place [] h = absurd (omega arith)
vectors-at size i zero (v ∷ vs) h = ap (λ n. some (based size n)) (omega arith)
vectors-at size i (suc place) (v ∷ vs) h =
    vectors-at size (i + 1) place vs (omega arith) ∙ ap (λ n. some (based size n)) (omega arith)

-- Headers with one `iovec` each, from the one at `place` on.
pub record Points (place : ℕ) (h : Msghdr) : Type 0 where
  pub iov : h.msg_iov ≡ some place
  pub one : h.msg_iovlen ≡ 1

abbrev pub Pointing : ℕ → List Mmsghdr → Type 0
Pointing place [] = Unit
Pointing place (h ∷ hs) = Points place h.msg_hdr × Pointing (place + 1) hs

abbrev pub Sized : ℕ → List (List ℕ) → Type 0
Sized size = All (λ buffer. length buffer ≡ size)

-- Headers and buffers once datagrams have come.
abbrev pub set_headers : ℕ → List (List ℕ) → List Mmsghdr → List Mmsghdr
set_headers size [] hs = hs
set_headers size (d ∷ ds) [] = []
set_headers size (d ∷ ds) (h ∷ hs) =
    record h { msg_len = length (take size d) } ∷ set_headers size ds hs

abbrev pub set_buffers : ℕ → List (List ℕ) → List (List ℕ) → List (List ℕ)
set_buffers size [] bs = bs
set_buffers size (d ∷ ds) [] = []
set_buffers size (d ∷ ds) (b ∷ bs) = overwrite (take size d) b ∷ set_buffers size ds bs

pub prefix-overwrite :
    (bytes b : List ℕ)
    → ◌≡◌ {A = Outcome Error (List ℕ)} (prefix (overwrite bytes b) (length bytes)) (ok bytes)
prefix-overwrite bytes b =
    rw
      (le→leb (length bytes) (length (overwrite bytes b))
        (omega (arith, length-append bytes (drop (length bytes) b))))
      (ap ok (take-append_length (length bytes) bytes (drop (length bytes) b) refl))

pub length-overwrite :
    (size : ℕ) (d b : List ℕ) → length b ≡ size → length (overwrite (take size d) b) ≡ size
length-overwrite size d b e = omega (
  arith,
  length-append (take size d) (drop (length (take size d)) b),
  length-drop (length (take size d)) b,
  length-take size d,
)

module _ (kernel : Kernel) (documented : Documented kernel) where
  scattered-at :
      (size : ℕ) (vs : List (Iovec ℕ)) (h : Msghdr) (d b : List ℕ) (before after : List (List ℕ))
      → Points (length before) h
      → length before < length vs
      → length b ≡ size
      → kernel.scattered (vectors size 0 vs) h d (before ++ b ∷ after)
        ≡ some (length (take size d), before ++ overwrite (take size d) b ∷ after)
  scattered-at size vs h d b before after p room e =
      documented.scatters (vectors size 0 vs) h (based size (length before)) d b before after
        (record {
          place = length before;
          iov = p.iov;
          at =
              vectors-at size 0 (length before) vs room
              ∙ ap (λ n. some (based size n)) (omega arith);
          one = p.one;
        })
        refl (omega arith)

  pub scattered_all-set :
      (size : ℕ) (vs : List (Iovec ℕ)) (hs : List Mmsghdr) (ds before bs : List (List ℕ))
      → Pointing (length before) hs
      → Sized size bs
      → length ds ≤ length hs
      → length hs ≡ length bs
      → length before + length hs ≤ length vs
      → scattered_all kernel (vectors size 0 vs) hs ds (before ++ bs)
        ≡ some (set_headers size ds hs, before ++ set_buffers size ds bs)
  unfolding scattered_all
  scattered_all-set size vs hs [] before bs p z h e room = refl
  scattered_all-set size vs [] (d ∷ ds) before bs p z h e room = absurd (omega arith)
  scattered_all-set size vs (m ∷ hs) (d ∷ ds) before [] p z h e room = absurd (omega arith)
  scattered_all-set size vs (m ∷ hs) (d ∷ ds) before (b ∷ bs) p z h e room =
      let b' = overwrite (take size d) b in
      let len : length (before ++ b' ∷ []) ≡ length before + 1 =
        omega (arith, length-append before (b' ∷ [])) in
      let rest =
        scattered_all-set size vs hs ds (before ++ b' ∷ []) bs (rw len p.1) z.1 (omega arith)
          (omega arith) (omega (arith, len)) in
      rw (scattered-at size vs m.msg_hdr d b before bs p.0 (omega arith) z.0, scattered_all)
        (rw (sym (append_assoc before (b' ∷ []) bs)) (
          rw (rest) (
            ap (λ l. some (set_headers size (d ∷ ds) (m ∷ hs), l))
              (append_assoc before (b' ∷ []) (set_buffers size ds bs)))))

-- The bytes that came are read back, whatever is behind them in the buffers.
pub collect-set :
    (size : ℕ) (ds : List (List ℕ)) (hs : List Mmsghdr) (bs : List (List ℕ))
    → length ds ≤ length hs
    → length ds ≤ length bs
    → collect (length ds) (set_headers size ds hs) (set_buffers size ds bs) ≡ ok (cut size ds)
unfolding collect
collect-set size [] hs bs h h' = refl
collect-set size (d ∷ ds) [] bs h h' = absurd (omega arith)
collect-set size (d ∷ ds) (m ∷ hs) [] h h' = absurd (omega arith)
collect-set size (d ∷ ds) (m ∷ hs) (b ∷ bs) h h' =
    rw (prefix-overwrite (take size d) b)
      (rw (collect-set size ds hs bs (omega arith) (omega arith)))
