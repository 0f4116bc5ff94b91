-- ===== src/Receive/Client/Delivers.antt =====
-- What src/receive/client.rs writes.
use lidi.Prelude.{
  ℕ, ◌^◌, ◌<◌, ◌≡◌, refl, ap, sym, ◌∙◌, Option, none, some, Bool, true, false, List, [], ◌∷◌, ◌++◌,
  map, length, is_empty, append_assoc, append-nil, Bool-cases, inl, inr, if◌then◌else◌,
}
use lidi.Prelude.Outcome.{ok, panic}
use lidi.Protocol.RaptorQ.{RaptorQ}
use lidi.Protocol.Block.{
  BlockType, heartbeat, start, data_block, abort, end, ClientId, Block, block_type, payload,
}
use lidi.Protocol.Block.Layout.{layout}
use lidi.Protocol.Block.RoundTrip.{Reads}
use lidi.Protocol.Block.Hostile.{payload-lying}
use lidi.Stream
use lidi.Stream.{Writer, write_all}
use lidi.Receive.Client.{Message, block, client_end, panicked, write_payload, finish, deliver, run}
use lidi.Send.Client.Carries.{Carries, last, more, Transfer, begin}

-- A writer that has been given `bytes`, and on which nothing fails.
abbrev pub holding : List ℕ → Writer
holding bytes = record { written = bytes; faults = [] }

-- What a block with these contents does to such a writer.
abbrev pub outcome : BlockType → Option Bool
outcome abort = some false
outcome end = some true
outcome _ = none

module _ (flush : Bool) where
  write_payload-ok :
      (written bytes : List ℕ)
      → write_payload flush (holding written) bytes ≡ ok (holding (written ++ bytes))
  unfolding write_all Stream.flush
  write_payload-ok written bytes = elim (Bool-cases flush) [
    | inl e ↦ rw e (ap (λ l. ok (holding l)) (append-nil (written ++ bytes)))
    | inr e ↦ rw e refl
  ]

  finish-ok :
      (kind : BlockType) (written : List ℕ)
      → finish flush kind (holding written) ≡ ok (holding written, outcome kind)
  unfolding Stream.flush
  finish-ok heartbeat written = refl
  finish-ok start written = refl
  finish-ok data_block written = refl
  finish-ok abort written = ap (λ l. ok (holding l, some false)) (append-nil written)
  finish-ok end written =
      ap (λ l. ok (holding l, some true)) (append-nil (written ++ []) ∙ append-nil written)

  write-ok :
      (written bytes : List ℕ)
      → (if is_empty bytes
          then ok (holding written)
          else write_payload flush (holding written) bytes)
        ≡ ok (holding (written ++ bytes))
  write-ok written [] = ap (λ l. ok (holding l)) (sym (append-nil written))
  write-ok written (x ∷ xs) = write_payload-ok written (x ∷ xs)

  -- A readable block: its payload is written, and the transfer goes on or ends by its type.
  pub deliver-Reads :
      (written bytes : List ℕ) (b : Block) (kind : BlockType) (id : ClientId)
      → Reads b kind id bytes
      → deliver flush (holding written) b ≡ ok (holding (written ++ bytes), outcome kind)
  unfolding deliver
  deliver-Reads written bytes b kind id r =
      rw (r.kind, r.content) (rw (write-ok written bytes) (finish-ok kind (written ++ bytes)))

  pub run-more :
      (written bytes : List ℕ) (b : Block) (messages : List Message)
      → deliver flush (holding written) b ≡ ok (holding (written ++ bytes), none)
      → run flush (holding written) (block b ∷ messages)
        ≡ run flush (holding (written ++ bytes)) messages
  unfolding run
  run-more written bytes b messages e = rw (e, run)

  pub run-over :
      (written bytes : List ℕ) (b : Block) (messages : List Message) (flag : Bool)
      → deliver flush (holding written) b ≡ ok (holding (written ++ bytes), some flag)
      → run flush (holding written) (block b ∷ messages)
        ≡ (holding (written ++ bytes), client_end flag)
  unfolding run
  run-over written bytes b messages flag e = rw (e, run)

  run-Carries :
      {q : RaptorQ} {id : ClientId} (written : List ℕ) {bytes : List ℕ} {blocks : List Block}
      (rest : List Message)
      → Carries q id bytes blocks
      → run flush (holding written) (map block blocks ++ rest)
        ≡ (holding (written ++ bytes), client_end true)
  run-Carries {id = id} written {bytes} rest (last b reads sized) =
      run-over written bytes b rest true (deliver-Reads written bytes b end id reads)
  run-Carries {id = id} written rest (more head tail b blocks reads sized made c) =
      run-more written head b (map block blocks ++ rest)
        (deliver-Reads written head b data_block id reads)
      ∙ run-Carries (written ++ head) rest c
      ∙ ap (λ l. (holding l, client_end true))
          (append_assoc written head tail ∙ ap (λ l. written ++ l) (sym made))

  -- The blocks of a transfer, whatever is queued behind them: the worker writes exactly the bytes
  -- that they carry, and calls `client_end` with `true`.
  pub run-delivers :
      {q : RaptorQ} {id : ClientId} {bytes : List ℕ} {blocks : List Block} (rest : List Message)
      → Transfer q id bytes blocks
      → run flush (holding []) (map block blocks ++ rest) ≡ (holding bytes, client_end true)
  run-delivers {id = id} rest (begin b blocks reads sized c) =
      run-more [] [] b (map block blocks ++ rest) (deliver-Reads [] [] b start id reads)
      ∙ run-Carries [] rest c

  deliver-panic :
      (w : Writer) (b : Block) (kind : BlockType)
      → block_type b ≡ ok kind
      → payload b ≡ panic
      → deliver flush w b ≡ panic
  unfolding deliver
  deliver-panic w b kind e bad = rw (e, bad)

  -- A block whose length field passes its end stops the worker by a panic, whatever was received
  -- before it and whatever comes behind.
  pub run-lying :
      (written : List ℕ) (kind : BlockType) (id len : ℕ) (tail : List ℕ) (rest : List Message)
      → id < 2 ^ 32
      → len < 2 ^ 32
      → length tail < len
      → run flush (holding written) (block (layout kind id len tail) ∷ rest)
        ≡ (holding written, panicked)
  unfolding run
  run-lying written kind id len tail rest hid hlen lying = rw (broken, run)
    where
      broken : deliver flush (holding written) (layout kind id len tail) ≡ panic
      broken =
          let (owner, kept, bad) = payload-lying kind id len tail hid hlen lying in
          deliver-panic (holding written) (layout kind id len tail) kind kept bad
