-- ===== src/Examples/Send.antt =====
-- The theorems about src/send/ at concrete inputs.
use lidi.Prelude.{ℕ, ◌≡◌, refl, some, none, true, List, [], ◌∷◌, ◌++◌, map, arith}
use lidi.Prelude.Outcome.{ok}
use lidi.Protocol.Block.{data_block, Block}
use lidi.Protocol.Block.Layout.{layout}
use lidi.Stream.{Reader, some_bytes}
use lidi.Send.Client.{run}
use lidi.Send.Client.Carries.{Transfer}
use lidi.Send.Client.Rounds.{Setting}
use lidi.Send.Client.Splits.{run-Transfer}
use lidi.Send.Ordering.{start}
use lidi.Send.Ordering.Numbers.{start-numbered}
use lidi.Send.Encoding.{State, take, release, Reach, here, next}
use lidi.Send.Encoding.InOrder.{somes, coded, fresh, encoders_in_order, encoders_complete}
use lidi.Turn.{numbered}
use lidi.Examples.Crate.{crate}
use lidi.Examples.Protocol.{small, exact}

pub small-Setting : Setting exact small 1
small-Setting = record {
  room = omega arith;
  small = omega arith;
  known = omega arith;
  exact = λ len h. omega arith;
}

-- A client that sends nine bytes, four at a time at first.
abbrev pub nine : Reader
nine = record {
  input = 1 ∷ 2 ∷ 3 ∷ 4 ∷ 5 ∷ 6 ∷ 7 ∷ 8 ∷ 9 ∷ [];
  schedule = some_bytes 4 ∷ some_bytes 2 ∷ [];
}

run-Transfer_example :
    (blocks : List Block) × (run exact true small 1 nine ≡ some (blocks, ok tt))
    × Transfer small 1 (1 ∷ 2 ∷ 3 ∷ 4 ∷ 5 ∷ 6 ∷ 7 ∷ 8 ∷ 9 ∷ []) blocks
run-Transfer_example = run-Transfer exact true small 1 small-Setting nine (tt, (tt, tt))

abbrev one : Block
one = layout data_block 1 1 (7 ∷ 0 ∷ 0 ∷ 0 ∷ 0 ∷ 0 ∷ 0 ∷ [])

abbrev two : Block
two = layout data_block 2 1 (8 ∷ 0 ∷ 0 ∷ 0 ∷ 0 ∷ 0 ∷ 0 ∷ [])

start-numbered_example : start (List ℕ) (some one ∷ some two ∷ none ∷ some one ∷ []) ≡ record {
  to_encoding = some (0, one) ∷ some (1, two) ∷ [];
  to_send = none ∷ [];
  returned = true;
}
start-numbered_example = start-numbered (List ℕ) (one ∷ two ∷ []) (some one ∷ [])

-- Two threads: both blocks are taken, the first is sent.
abbrev both : List Block
both = one ∷ two ∷ []

abbrev taken : State crate.Packet
taken = record (fresh crate small 2 both) { for_encoding = []; waiting = (0, one) ∷ (1, two) ∷ [] }

Reach-taken : Reach crate small (fresh crate small 2 both) taken
Reach-taken =
    next (next here (take 0 one (some (1, two) ∷ []) refl (omega arith) refl))
      (take 1 two [] refl (omega arith) refl)

encoders_in_order_example :
    somes taken.to_send ++ coded crate small (taken.waiting ++ somes taken.for_encoding)
    ≡ coded crate small (numbered 0 both)
encoders_in_order_example = encoders_in_order crate small 2 both taken (omega arith) Reach-taken

abbrev released : State crate.Packet
released = record taken {
  waiting = [];
  block_to_send = 2;
  to_send = map some (coded crate small (numbered 0 both));
}

Reach-released : Reach crate small (fresh crate small 2 both) released
Reach-released =
    next (next Reach-taken (release [] ((1, two) ∷ []) 0 one refl refl refl))
      (release [] [] 1 two refl refl refl)

encoders_complete_example : somes released.to_send ≡ coded crate small (numbered 0 both)
encoders_complete_example =
    encoders_complete crate small 2 both released (omega arith) Reach-released refl
