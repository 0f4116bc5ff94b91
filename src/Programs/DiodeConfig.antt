-- ===== src/Programs/DiodeConfig.antt =====
-- src/bin/diode-config.rs: a trial of a configuration on one block, with packets shuffled and
-- removed. The random bytes and the draws are arguments.
pub mod Tries
use lidi.Prelude.{
  ℕ, zero, suc, ◌+◌, ◌-◌, ◌*◌, ◌/◌, ◌%◌, Option, none, some, Bool, true, false, ◌&&◌, List, [], ◌∷◌,
  length, drop, set, ltb, leb, ◌==◌, if◌then◌else◌, is_empty,
}
use lidi.Prelude.Outcome.{Outcome, ok, err, panic, ◌>>=◌}
use lidi.Prelude.Slices.{get_elem?}
use lidi.Protocol
use lidi.Protocol.Crate.{Raptorq}
use lidi.Protocol.RaptorQ
use lidi.Protocol.RaptorQ.{RaptorQ, encode, decode}
use lidi.Programs
use lidi.Programs.{Exit, returned, exit, World}

pub record Args : Type 0 where
  pub debug : Bool
  pub mtu : ℕ
  pub block : ℕ
  pub repair : ℕ
  pub min_repair : ℕ
  pub remove : ℕ

-- `rng.random_range(lo..hi)`, from a draw
abbrev random_range : ℕ → ℕ → ℕ → Outcome (Unit {0}) ℕ
random_range lo hi draw = if ltb lo hi then ok (lo + draw % (hi - lo)) else panic

module _ {A : Type 0} where
  abbrev swapped : List A → ℕ → ℕ → Option A → Option A → Outcome (Unit {0}) (List A)
  swapped l i j (some a) (some b) = ok (set (set l i b) j a)
  swapped l i j _ _ = panic

  -- `packets.swap(i, j)`
  unfoldable pub swap : ℕ → ℕ → List A → Outcome (Unit {0}) (List A)
  swap i j l = swapped l i j (get_elem? l i) (get_elem? l j)

  -- `n` rounds of the loop, from round `i` on
  pub shuffle_from : (ℕ → ℕ) → ℕ → ℕ → ℕ → List A → Outcome (Unit {0}) (List A)
  unfolding swap
  shuffle_from draws nb_packets i zero l = ok l
  shuffle_from draws nb_packets i (suc n) l = do
    j ← random_range (nb_packets / 2) nb_packets (draws i)
    l' ← swap i j l
    shuffle_from draws nb_packets (i + 1) n l'

  unfoldable pub shuffle : (ℕ → ℕ) → List A → Outcome (Unit {0}) (List A)
  unfolding shuffle_from
  shuffle draws l = shuffle_from draws (length l) 0 (length l / 2) l

  -- `split_off(n)`, which panics past the end
  abbrev pub split_off : ℕ → List A → Outcome (Unit {0}) (List A)
  split_off n l = if leb n (length l) then ok (drop n l) else panic

-- `==` on byte vectors
pub same : List ℕ → List ℕ → Bool
same [] [] = true
same (x ∷ xs) (y ∷ ys) = x == y && same xs ys
same _ _ = false

abbrev pub verdict : List ℕ → Option (List ℕ) → Exit
unfolding same
verdict bytes none = returned
verdict bytes (some decoded) = if same decoded bytes then returned else exit 3

abbrev left_to : Outcome (Unit {0}) Exit → Exit
left_to (ok e) = e
left_to (err _) = Programs.panicked
left_to panic = Programs.panicked

module _ (crate : Raptorq) where
  -- From the encoding on; the first packet is looked at for the debug log alone.
  abbrev trial : Args → RaptorQ → (ℕ → ℕ) → List ℕ → Outcome (Unit {0}) Exit
  trial args q draws bytes =
      let packets = encode crate q 0 bytes in
      if args.debug && is_empty packets then panic else do
        shuffled ← shuffle draws packets
        kept ← split_off (length packets * args.remove / 100) shuffled
        ok (verdict bytes (decode crate q 0 kept))

  abbrev with_raptorq : Args → (ℕ → ℕ) → List ℕ → Outcome Protocol.Error RaptorQ → Exit
  with_raptorq args draws bytes (ok q) = left_to (trial args q draws bytes)
  with_raptorq args draws bytes (err _) = exit 2
  with_raptorq args draws bytes panic = Programs.panicked

  unfoldable pub main : World → Args → (ℕ → ℕ) → List ℕ → Exit
  unfolding shuffle
  main world args draws bytes =
      if world.has_logger
      then with_raptorq args draws bytes
          (RaptorQ.new args.mtu args.block args.repair args.min_repair)
      else exit 1
