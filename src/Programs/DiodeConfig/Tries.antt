-- ===== src/Programs/DiodeConfig/Tries.antt =====
-- What src/bin/diode-config.rs decodes.
use native.Mathlib.Nat.{mod-lt}
use lidi.Prelude.{
  ℕ, zero, suc, ◌+◌, ◌-◌, ◌*◌, ◌/◌, ◌%◌, ◌≤◌, ◌<◌, ◌≡◌, refl, ap, sym, ◌∙◌, some, Bool, true, false,
  List, [], ◌∷◌, length, drop, set, arith, is_empty, ◌&&◌, length-drop, lt→ltb, le→leb,
}
use lidi.Prelude.Outcome.{ok}
use lidi.Prelude.Slices.{get_elem?}
use lidi.Protocol.Crate.{Raptorq, Laws}
use lidi.Protocol.RaptorQ
use lidi.Protocol.RaptorQ.{RaptorQ, nb_packets, encode, decode}
use lidi.Protocol.RaptorQ.Coding.{IsCodable, length-encode}
use lidi.Programs.{World}
use lidi.Programs.DiodeConfig.{
  Args, random_range, swap, shuffle_from, shuffle, verdict, trial, with_raptorq, left_to, main,
}

draw : (nb r : ℕ) → 0 < nb → (j : ℕ) × (j < nb) × (random_range (nb / 2) nb r ≡ ok j)
draw nb r h = (
  nb / 2 + r % (nb - nb / 2),
  omega (arith, mod-lt r {m = nb - nb / 2} (omega arith)),
  rw (lt→ltb (nb / 2) nb (omega arith)) refl,
)

module _ {A : Type 0} where
  -- The sum of a weight over a list; lists with the same sums for every weight have the same members,
  -- each as often.
  abbrev pub total : (A → ℕ) → List A → ℕ
  total f [] = 0
  total f (a ∷ l) = f a + total f l

  total-set :
      (f : A → ℕ) (l : List A) (i : ℕ) (a b : A)
      → get_elem? l i ≡ some a
      → total f (set l i b) + f a ≡ total f l + f b
  total-set f [] i a b e = absurd (cc)
  total-set f (x ∷ l) zero a b e = let same : x ≡ a = cc in omega (arith, ap f same)
  total-set f (x ∷ l) (suc i) a b e = omega (arith, total-set f l i a b e)

  length-set : (l : List A) (i : ℕ) (b : A) → length (set l i b) ≡ length l
  length-set [] i b = refl
  length-set (x ∷ l) zero b = refl
  length-set (x ∷ l) (suc i) b = ap suc (length-set l i b)

  get_elem?-lt : (l : List A) (i : ℕ) → i < length l → (a : A) × (get_elem? l i ≡ some a)
  get_elem?-lt [] i h = absurd (omega arith)
  get_elem?-lt (x ∷ l) zero h = (x, refl)
  get_elem?-lt (x ∷ l) (suc i) h = get_elem?-lt l i (omega arith)

  get_elem?-set :
      (l : List A) (i j : ℕ) (a b : A)
      → get_elem? l i ≡ some a
      → get_elem? l j ≡ some b
      → (c : A) × (get_elem? (set l i b) j ≡ some c) × (c ≡ b)
  get_elem?-set [] i j a b e e' = absurd (cc)
  get_elem?-set (x ∷ l) zero zero a b e e' = (b, refl, refl)
  get_elem?-set (x ∷ l) zero (suc j) a b e e' = (b, e', refl)
  get_elem?-set (x ∷ l) (suc i) zero a b e e' = (b, e', refl)
  get_elem?-set (x ∷ l) (suc i) (suc j) a b e e' = get_elem?-set l i j a b e e'

  -- A list with the same length and the same members.
  pub record Shuffled (l l' : List A) : Type 0 where
    pub long : length l' ≡ length l
    pub members : (f : A → ℕ) → total f l' ≡ total f l

  swap-Shuffled :
      (i j : ℕ) (l : List A)
      → i < length l
      → j < length l
      → (l' : List A) × (swap i j l ≡ ok l') × Shuffled l l'
  unfolding swap
  swap-Shuffled i j l hi hj =
      let (a, e) = get_elem?-lt l i hi in
      let (b, e') = get_elem?-lt l j hj in
      let (c, e'', same) = get_elem?-set l i j a b e e' in
      (
        set (set l i b) j a,
        rw (e, e') refl,
        record {
          long = length-set (set l i b) j a ∙ length-set l i b;
          members = λ f.
              omega (arith, total-set f l i a b e, total-set f (set l i b) j c a e'', ap f same);
        },
      )

  shuffle_from-Shuffled :
      (draws : ℕ → ℕ) (nb i n : ℕ) (l : List A)
      → nb ≡ length l
      → i + n ≤ nb / 2
      → (l' : List A) × (shuffle_from draws nb i n l ≡ ok l') × Shuffled l l'
  unfolding shuffle_from
  shuffle_from-Shuffled draws nb i zero l e h =
      (l, refl, record { long = refl; members = λ f. refl })
  shuffle_from-Shuffled draws nb i (suc n) l e h =
      let (j, within, drawn) = draw nb (draws i) (omega arith) in
      let (l', e', s) = swap-Shuffled i j l (omega arith) (omega arith) in
      let (l'', e'', s') =
        shuffle_from-Shuffled draws nb (i + 1) n l' (e ∙ sym s.long) (omega arith) in
      (
        l'',
        rw (drawn, e') e'',
        record { long = s'.long ∙ s.long; members = λ f. s'.members f ∙ s.members f },
      )

  shuffle-Shuffled :
      (draws : ℕ → ℕ) (l : List A) → (l' : List A) × (shuffle draws l ≡ ok l') × Shuffled l l'
  unfolding shuffle
  shuffle-Shuffled draws l =
      shuffle_from-Shuffled draws (length l) 0 (length l / 2) l refl (omega arith)

mul-le_hundred : (n r : ℕ) → r ≤ 100 → n * r ≤ n * 100
mul-le_hundred zero r h = omega arith
mul-le_hundred (suc n) r h = omega (arith, mul-le_hundred n r h)

share_le : (n r : ℕ) → r ≤ 100 → n * r / 100 ≤ n
share_le n r h = omega (arith, mul-le_hundred n r h)

and_false : (b : Bool) → (b && false) ≡ false
and_false true = refl
and_false false = refl

not_empty : {A : Type 0} (l : List A) → 0 < length l → is_empty l ≡ false
not_empty [] h = absurd (omega arith)
not_empty (x ∷ l) h = refl

module _ (crate : Raptorq) (laws : Laws crate) where
  tried :
      (args : Args) (q : RaptorQ) (draws : ℕ → ℕ) (bytes : List ℕ) (shuffled : List crate.Packet)
      → length (encode crate q 0 bytes) ≡ nb_packets q
      → is_empty (encode crate q 0 bytes) ≡ false
      → shuffle draws (encode crate q 0 bytes) ≡ ok shuffled
      → nb_packets q * args.remove / 100 ≤ length shuffled
      → trial crate args q draws bytes
        ≡ ok (verdict bytes (decode crate q 0 (drop (nb_packets q * args.remove / 100) shuffled)))
  tried args q draws bytes shuffled long some_packet e within =
      rw (some_packet, and_false args.debug, e, long)
        (rw (le→leb (nb_packets q * args.remove / 100) (length shuffled) within) refl)

  -- With a logger, a configuration that `RaptorQ::new` accepts and that has a symbol, a block of
  -- random bytes, and at most all packets to remove: `main` does not panic, whatever is drawn. The
  -- packets are shuffled, none lost and none twice; the share to remove is taken off the front, and
  -- the exit code is by what is decoded from the others.
  pub main-tries :
      (world : World) (args : Args) (draws : ℕ → ℕ) (bytes : List ℕ) (q : RaptorQ)
      → world.has_logger ≡ true
      → RaptorQ.new args.mtu args.block args.repair args.min_repair ≡ ok q
      → IsCodable q
      → 0 < q.symbol_count
      → length bytes ≡ q.transfer_length
      → args.remove ≤ 100
      → (shuffled : List crate.Packet) × Shuffled (encode crate q 0 bytes) shuffled
        × (main crate world args draws bytes
            ≡ verdict bytes (decode crate q 0 (drop (nb_packets q * args.remove / 100) shuffled)))
        × (length (drop (nb_packets q * args.remove / 100) shuffled)
            ≡ nb_packets q - nb_packets q * args.remove / 100)
  unfolding main
  main-tries world args draws bytes q logged sized codable symbols fits few =
      let packets = encode crate q 0 bytes in
      let long : length packets ≡ nb_packets q =
        length-encode crate laws q codable 0 bytes (omega arith) fits in
      let some_packet : is_empty packets ≡ false =
        not_empty packets (omega (arith, long, codable.symbols, codable.few)) in
      let (shuffled, e, s) = shuffle-Shuffled draws packets in
      let within : nb_packets q * args.remove / 100 ≤ length shuffled =
        omega (arith, share_le (nb_packets q) args.remove few, s.long, long) in
      (
        shuffled,
        s,
        rw (logged) (
            ap (with_raptorq crate args draws bytes) sized
            ∙ ap left_to (tried args q draws bytes shuffled long some_packet e within)),
        length-drop (nb_packets q * args.remove / 100) shuffled
            ∙ ap (λ n. n - nb_packets q * args.remove / 100) (s.long ∙ long),
      )
