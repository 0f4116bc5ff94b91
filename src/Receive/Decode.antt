-- ===== src/Receive/Decode.antt =====
-- src/receive/decode.rs: the parallel decoders. A thread takes a reassembled block, decodes it, and
-- waits until `block_to_dispatch` is the block's number before it sends the block. The threads are
-- interleaved by a step relation; `waiting` lists what they hold, in the order in which it was
-- taken. The counter starts where src/receive/reblock.rs has put it at a reset; a reset while blocks
-- are held is left out.
pub mod InOrder
pub mod Progress
pub mod Stall
use lidi.Prelude.{ℕ, ◌+◌, ◌%◌, ◌<◌, ◌≡◌, Option, none, some, List, [], ◌∷◌, ◌++◌, length}
use lidi.Protocol.Block.{Block, deserialize}
use lidi.Protocol.Crate.{Raptorq}
use lidi.Protocol.RaptorQ.{RaptorQ, decode}
use lidi.Receive.{Reassembled, error, block}

pub record State (P : Type 0) : Type 0 where
  pub for_decode : List (Reassembled P)
  pub waiting : List (ℕ × Block)
  pub threads : ℕ
  pub block_to_dispatch : ℕ
  pub to_dispatch : List (Option Block)

module _ (crate : Raptorq) (q : RaptorQ) where
  pub data Step (s t : State crate.Packet) : Type 0 where
    -- a block that is decoded, by a thread that holds nothing
    take :
        (id : ℕ) (packets : List crate.Packet) (bytes : List ℕ)
        (rest : List (Reassembled crate.Packet))
        → s.for_decode ≡ block id packets ∷ rest
        → length s.waiting < s.threads
        → decode crate q id packets ≡ some bytes
        → t ≡ record s { for_decode = rest; waiting = s.waiting ++ (id, deserialize bytes) ∷ [] }
        → Step s t
    -- a block that is not: the loss is reported, and the counter stays
    lost :
        (id : ℕ) (packets : List crate.Packet) (rest : List (Reassembled crate.Packet))
        → s.for_decode ≡ block id packets ∷ rest
        → length s.waiting < s.threads
        → decode crate q id packets ≡ none
        → t ≡ record s { for_decode = rest; to_dispatch = s.to_dispatch ++ none ∷ [] }
        → Step s t
    -- `Reassembled::Error`, passed on
    propagate :
        (rest : List (Reassembled crate.Packet))
        → s.for_decode ≡ error ∷ rest
        → length s.waiting < s.threads
        → t ≡ record s { for_decode = rest; to_dispatch = s.to_dispatch ++ none ∷ [] }
        → Step s t
    -- a thread whose wait is over
    release :
        (before after : List (ℕ × Block)) (id : ℕ) (b : Block)
        → s.waiting ≡ before ++ (id, b) ∷ after
        → id ≡ s.block_to_dispatch
        → t ≡ record s {
          waiting = before ++ after;
          block_to_dispatch = (s.block_to_dispatch + 1) % 256;
          to_dispatch = s.to_dispatch ++ some b ∷ [];
        }
        → Step s t

  pub data Reach (s : State crate.Packet) : State crate.Packet → Type 0 where
    here : Reach s s
    next : {t u : State crate.Packet} → Reach s t → Step t u → Reach s u
