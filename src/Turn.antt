-- ===== src/Turn.antt =====
-- Numbered blocks that wait for their turn: what src/send/encoding.rs and src/receive/decode.rs
-- share. The numbers are `u8`s that wrap.
use lidi.Prelude.{ℕ, ◌+◌, ◌%◌, ◌<◌, ◌≡◌, ◌≢◌, refl, List, [], ◌∷◌, ◌++◌, arith, length}

module _ {A : Type 0} where
  -- Each number is the one before it plus one, modulo 256.
  abbrev pub Consecutive : ℕ → List (ℕ × A) → Type 0
  Consecutive c [] = Unit
  Consecutive c ((id, a) ∷ l) = (id ≡ c) × Consecutive ((c + 1) % 256) l

  pub number-Consecutive :
      (c : ℕ) (before after : List (ℕ × A)) (id : ℕ) (a : A)
      → c < 256
      → Consecutive c (before ++ (id, a) ∷ after)
      → id ≡ (c + length before) % 256
  number-Consecutive c [] after id a hc h = omega (arith, h.0)
  number-Consecutive c ((j, b) ∷ before) after id a hc h =
      omega (arith, number-Consecutive ((c + 1) % 256) before after id a (omega arith) h.1)

  -- Among fewer than 256 blocks only the first has the number of the turn.
  pub only_first :
      (c : ℕ) (before after : List (ℕ × A)) (id : ℕ) (a : A)
      → c < 256
      → length before < 256
      → Consecutive c (before ++ (id, a) ∷ after)
      → id ≡ c
      → before ≡ []
  only_first c [] after id a hc hl h e = refl
  only_first c ((j, b) ∷ before) after id a hc hl h e =
      absurd (omega (arith, number-Consecutive c ((j, b) ∷ before) after id a hc h))

  -- If the numbers go on behind the turn's, fewer than 255 blocks never meet it again.
  pub none_has_turn :
      (c : ℕ) (before after : List (ℕ × A)) (id : ℕ) (a : A)
      → c < 256
      → length before < 255
      → Consecutive ((c + 1) % 256) (before ++ (id, a) ∷ after)
      → id ≢ c
  none_has_turn c before after id a hc hl h e =
      omega (arith, number-Consecutive ((c + 1) % 256) before after id a (omega arith) h)

-- The numbers that a counter from `c` on gives.
abbrev pub numbered : {A : Type 0} → ℕ → List A → List (ℕ × A)
numbered c [] = []
numbered c (a ∷ l) = (c, a) ∷ numbered ((c + 1) % 256) l

pub numbered-Consecutive : {A : Type 0} (c : ℕ) (l : List A) → Consecutive c (numbered c l)
numbered-Consecutive c [] = tt
numbered-Consecutive c (a ∷ l) = (refl, numbered-Consecutive ((c + 1) % 256) l)
