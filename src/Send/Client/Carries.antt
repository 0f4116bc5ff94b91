-- ===== src/Send/Client/Carries.antt =====
-- The blocks that carry a stream: what src/send/client.rs promises and src/receive/client.rs
-- relies on.
use lidi.Prelude.{ℕ, ◌≡◌, List, [], ◌∷◌, ◌++◌, length}
use lidi.Protocol.RaptorQ.{RaptorQ}
use lidi.Protocol.Block.{start, data_block, end, ClientId, Block}
use lidi.Protocol.Block.RoundTrip.{Reads}
use lidi.Prelude.Outcome.{Outcome, ok, err}
use lidi.Stream.{failed}
use lidi.Send.Client.{Error, io}

module _ (q : RaptorQ) (id : ClientId) where
  -- Data blocks and an end block, each as long as a RaptorQ block, whose payloads make up `bytes`.
  pub data Carries : List ℕ → List Block → Type 0 where
    last :
        {bytes : List ℕ} (block : Block)
        → Reads block end id bytes
        → length block ≡ q.transfer_length
        → Carries bytes (block ∷ [])
    more :
        {bytes : List ℕ} (head tail : List ℕ) (block : Block) (blocks : List Block)
        → Reads block data_block id head
        → length block ≡ q.transfer_length
        → bytes ≡ head ++ tail
        → Carries tail blocks
        → Carries bytes (block ∷ blocks)

  -- A whole transfer: a start block first.
  pub data Transfer (bytes : List ℕ) : List Block → Type 0 where
    begin :
        (block : Block) (blocks : List Block)
        → Reads block start id []
        → length block ≡ q.transfer_length
        → Carries bytes blocks
        → Transfer bytes (block ∷ blocks)

  -- Data blocks alone, as a client leaves them whose stream breaks.
  pub data Parts : List ℕ → List Block → Type 0 where
    no_part : Parts [] []
    part :
        {bytes : List ℕ} (head tail : List ℕ) (block : Block) (blocks : List Block)
        → Reads block data_block id head
        → length block ≡ q.transfer_length
        → bytes ≡ head ++ tail
        → Parts tail blocks
        → Parts bytes (block ∷ blocks)

  -- How a worker ends that has sent these blocks behind the start block: with all of the stream, or
  -- with a part of it and an error, if a read has failed.
  pub data Ended (input : List ℕ) (works : Type 0) : List Block → Outcome Error Unit → Type 0 where
    whole : {blocks : List Block} → Carries input blocks → Ended input works blocks (ok tt)
    cut :
        {blocks : List Block} (bytes unsent : List ℕ)
        → input ≡ bytes ++ unsent
        → Parts bytes blocks
        → ¬ works
        → Ended input works blocks (err (io failed))
