-- ===== src/Send/Ordering/Numbers.antt =====
-- The numbers that src/send/ordering.rs gives, and how it ends.
use lidi.Prelude.{ℕ, ◌+◌, ◌%◌, ◌≡◌, refl, ap, Option, none, some, List, [], ◌∷◌, ◌++◌, map, true}
use lidi.Protocol.Block.{Block}
use lidi.Send.Ordering.{Sent, ordering, start}
use lidi.Turn.{numbered}

ordering-numbered :
    (P : Type 0) (id : ℕ) (blocks : List Block) (rest : List (Option Block))
    → ordering P id (map some blocks ++ none ∷ rest)
      ≡ record { to_encoding = map some (numbered id blocks); to_send = none ∷ []; returned = true }
unfolding ordering
ordering-numbered P id [] rest = refl
ordering-numbered P id (block ∷ blocks) rest =
    ap (λ (s : Sent P). record s { to_encoding = some (id, block) ∷ s.to_encoding })
      (ordering-numbered P ((id + 1) % 256) blocks rest)

-- Up to the first end mark every block goes to the encoders, numbered from 0 on modulo 256. The
-- end mark itself goes past the encoders, straight to the UDP worker; no end mark reaches an
-- encoder, and nothing behind the first one is read.
pub start-numbered :
    (P : Type 0) (blocks : List Block) (rest : List (Option Block))
    → start P (map some blocks ++ none ∷ rest)
      ≡ record { to_encoding = map some (numbered 0 blocks); to_send = none ∷ []; returned = true }
unfolding start
start-numbered P blocks rest = ordering-numbered P 0 blocks rest
