-- ===== src/Prelude/Slices.antt =====
-- Rust's indexing and slicing of byte vectors, with the panic out of range.
use Prim.Native.Nat.{ℕ, zero, suc, ◌-◌, ◌≤◌}
use mathlib.Core.Path.{◌≡◌, refl, ap}
use mathlib.Core.Option.{Option, none, some}
use mathlib.Core.List.{List, [], ◌∷◌, ◌++◌}
use lidi.Prelude.Tests.{ltb, leb, if◌then◌else◌, le→leb}
use lidi.Prelude.Lists.{length, set, take, drop}
use lidi.Prelude.Outcome.{Outcome, ok, panic}

module _ {ℓ} {A : Type ℓ} where
  -- `v.get(i)`
  abbrev pub get_elem? : List A → ℕ → Option A
  get_elem? [] i = none
  get_elem? (x ∷ xs) zero = some x
  get_elem? (x ∷ xs) (suc i) = get_elem? xs i

  pub get_elem?-append_length :
      (before : List A) (x : A) (after : List A)
      → get_elem? (before ++ x ∷ after) (length before) ≡ some x
  get_elem?-append_length [] x after = refl
  get_elem?-append_length (y ∷ before) x after = get_elem?-append_length before x after

  pub set-append_length :
      (before : List A) (x y : A) (after : List A)
      → set (before ++ x ∷ after) (length before) y ≡ before ++ y ∷ after
  set-append_length [] x y after = refl
  set-append_length (z ∷ before) x y after = ap (λ l. z ∷ l) (set-append_length before x y after)

module _ {E : Type 0} {A : Type 0} where
  abbrev or_panic : Option A → Outcome E A
  or_panic none = panic
  or_panic (some a) = ok a

  -- `v[i]`
  abbrev pub index : List A → ℕ → Outcome E A
  index xs i = or_panic (get_elem? xs i)

  -- `v[i] = a`
  abbrev pub store : List A → ℕ → A → Outcome E (List A)
  store xs i a = if ltb i (length xs) then ok (set xs i a) else panic

  -- `&v[from..to]`
  abbrev pub slice : List A → ℕ → ℕ → Outcome E (List A)
  slice xs from to =
      if leb from to
      then (if leb to (length xs) then ok (take (to - from) (drop from xs)) else panic)
      else panic

  -- `&v[..n]`
  abbrev pub prefix : List A → ℕ → Outcome E (List A)
  prefix xs n = if leb n (length xs) then ok (take n xs) else panic

  pub prefix-ok : (xs : List A) (n : ℕ) → n ≤ length xs → prefix xs n ≡ ok (take n xs)
  prefix-ok xs n h = rw (le→leb n (length xs) h)
