-- ===== src/Send/Encoding.antt =====
-- src/send/encoding.rs: the parallel encoders. A thread takes a numbered block, encodes it, and
-- waits until `block_to_send` is the block's number before it sends the packets. The threads are
-- interleaved by a step relation; `waiting` lists what they hold, in the order in which it was
-- taken. A step under the mutex is atomic.
pub mod InOrder
use lidi.Prelude.{ℕ, suc, ◌+◌, ◌%◌, ◌<◌, ◌≡◌, Option, none, some, List, [], ◌∷◌, ◌++◌, length}
use lidi.Protocol.Block.{Block}
use lidi.Protocol.Crate.{Raptorq}
use lidi.Protocol.RaptorQ.{RaptorQ, encode}

pub record State (P : Type 0) : Type 0 where
  pub for_encoding : List (Option (ℕ × Block))
  pub waiting : List (ℕ × Block)
  -- threads that have not returned
  pub threads : ℕ
  pub block_to_send : ℕ
  pub to_send : List (Option (List P))

module _ (crate : Raptorq) (q : RaptorQ) where
  pub data Step (s t : State crate.Packet) : Type 0 where
    -- `for_encoding.recv()` in a thread that holds nothing
    take :
        (id : ℕ) (block : Block) (rest : List (Option (ℕ × Block)))
        → s.for_encoding ≡ some (id, block) ∷ rest
        → length s.waiting < s.threads
        → t ≡ record s { for_encoding = rest; waiting = s.waiting ++ (id, block) ∷ [] }
        → Step s t
    -- the end mark: passed on, and the thread returns
    stop :
        (rest : List (Option (ℕ × Block))) (others : ℕ)
        → s.for_encoding ≡ none ∷ rest
        → length s.waiting < s.threads
        → s.threads ≡ suc others
        → t ≡ record s { for_encoding = rest; threads = others; to_send = s.to_send ++ none ∷ [] }
        → Step s t
    -- a thread whose wait is over
    release :
        (before after : List (ℕ × Block)) (id : ℕ) (block : Block)
        → s.waiting ≡ before ++ (id, block) ∷ after
        → id ≡ s.block_to_send
        → t ≡ record s {
          waiting = before ++ after;
          block_to_send = (s.block_to_send + 1) % 256;
          to_send = s.to_send ++ some (encode crate q id block) ∷ [];
        }
        → Step s t

  pub data Reach (s : State crate.Packet) : State crate.Packet → Type 0 where
    here : Reach s s
    next : {t u : State crate.Packet} → Reach s t → Step t u → Reach s u
