-- ===== src/Send/Client.antt =====
-- src/send/client.rs: the worker that reads a client's stream and cuts it into blocks. The bytes of
-- the buffer below `cursor` are `filled`; those above it are never sent. The hash is only logged.
pub mod Carries
pub mod Rounds
pub mod Splits
use lidi.Prelude.{
  ℕ, zero, suc, ◌+◌, ◌-◌, Option, none, some, Bool, true, false, not, ◌&&◌, ◌||◌, List, [], ◌∷◌,
  ◌++◌, length, ltb, leb, ◌==◌, if◌then◌else◌,
}
use lidi.Prelude.Outcome.{Outcome, ok, err, panic, ◌>>=◌}
use lidi.Protocol
use lidi.Protocol.RaptorQ.{RaptorQ}
use lidi.Protocol.Block.{BlockType, start, data_block, end, ClientId, Block, new, max_data_len}
use lidi.Stream.{IoError, Reader, read}

-- The cases of `send::Error` that the worker can return.
pub data Error : Type 0 where
  io : IoError → Error
  protocol : Protocol.Error → Error

-- What one round of the loop comes to.
pub data Round : Type 0 where
  -- `continue`, or the block was sent: the filled part of the buffer, and the client
  again : List ℕ → Reader → Round
  sent : Block → Reader → Round
  -- the last block was sent
  finished : Block → Round
  stopped : Outcome Error Unit → Round

-- The blocks that were sent, and how the worker ended.
abbrev pub Sent : Type 0
Sent = List Block × Outcome Error Unit

module _ (capacity : ℕ → ℕ → ℕ) (flush : Bool) (q : RaptorQ) (id : ClientId) where
  abbrev send_data : Reader → Outcome Protocol.Error Block → Round
  send_data client (ok block) = sent block client
  send_data client (err e) = stopped (err (protocol e))
  send_data client panic = stopped panic

  abbrev send_end : Outcome Protocol.Error Block → Round
  send_end (ok block) = finished block
  send_end (err e) = stopped (err (protocol e))
  send_end panic = stopped panic

  -- The rest of a round, once `bytes` have been read behind `filled`.
  abbrev on_read : List ℕ → List ℕ → Reader → Round
  on_read filled bytes client =
      let cursor = length (filled ++ bytes) in
      if ltb 0 (length bytes)
      then (if not (flush || leb (max_data_len q) cursor)
          then again (filled ++ bytes) client
          else send_data client (new capacity data_block q id (some (filled ++ bytes))))
      else send_end (new capacity end q id (some (filled ++ bytes)))

  abbrev on_result : List ℕ → Outcome IoError (List ℕ × Reader) → Round
  on_result filled (ok (bytes, client)) = on_read filled bytes client
  on_result filled (err e) = stopped (err (io e))
  on_result filled panic = stopped panic

  unfoldable pub round : List ℕ → Reader → Round
  round filled client = on_result filled (read client (max_data_len q - length filled))

  abbrev pub before : Block → Option Sent → Option Sent
  before block none = none
  before block (some (blocks, result)) = some (block ∷ blocks, result)

  -- The loop; `none` means that the fuel ran out.
  unfoldable pub loop : ℕ → List ℕ → Reader → Option Sent
  loop zero filled client = none
  loop (suc fuel) filled client = elim (round filled client) [
    | again filled' client' ↦ loop fuel filled' client'
    | sent block client' ↦ before block (loop fuel [] client')
    | finished block ↦ some (block ∷ [], ok tt)
    | stopped result ↦ some ([], result)
  ]

  abbrev pub after_start : Outcome Protocol.Error Block → Option Sent → Option Sent
  after_start (ok block) rest = before block rest
  after_start (err e) rest = some ([], err (protocol e))
  after_start panic rest = some ([], panic)

  -- Every round but the last takes a byte, so one round more than bytes is enough.
  unfoldable pub run : Reader → Option Sent
  unfolding loop
  run client =
      after_start (new capacity start q id none) (loop (suc (length client.input)) [] client)
