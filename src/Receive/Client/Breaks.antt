-- ===== src/Receive/Client/Breaks.antt =====
-- What src/receive/client.rs does with a transfer that breaks.
use lidi.Prelude.{ℕ, ◌≡◌, ap, sym, ◌∙◌, Bool, false, List, [], ◌∷◌, ◌++◌, map, append_assoc}
use lidi.Protocol.RaptorQ.{RaptorQ}
use lidi.Protocol.Block.{start, data_block, abort, ClientId, Block}
use lidi.Protocol.Block.RoundTrip.{Reads}
use lidi.Receive.Client.{Message, block, client_end, run}
use lidi.Receive.Client.Delivers.{holding, deliver-Reads, run-more, run-over}
use lidi.Send.Client.Carries.{Parts, no_part, part}

module _ (flush : Bool) {q : RaptorQ} {id : ClientId} (b : Block)
    (aborts : Reads b abort id []) where
  -- Data blocks and then an abort block: the data is written, and the client ended with `false`.
  pub run-Parts :
      (written : List ℕ) {bytes : List ℕ} {blocks : List Block} (rest : List Message)
      → Parts q id bytes blocks
      → run flush (holding written) (map block (blocks ++ b ∷ []) ++ rest)
        ≡ (holding (written ++ bytes), client_end false)
  run-Parts written rest no_part =
      run-over flush written [] b rest false (deliver-Reads flush written [] b abort id aborts)
  run-Parts written rest (part head tail piece blocks reads sized made parts) =
      run-more flush written head piece (map block (blocks ++ b ∷ []) ++ rest)
        (deliver-Reads flush written head piece data_block id reads)
      ∙ run-Parts (written ++ head) rest parts
      ∙ ap (λ l. (holding l, client_end false))
          (append_assoc written head tail ∙ ap (λ l. written ++ l) (sym made))

  pub run-breaks :
      {bytes : List ℕ} {blocks : List Block} (first : Block) (rest : List Message)
      → Reads first start id []
      → Parts q id bytes blocks
      → run flush (holding []) (map block (first ∷ (blocks ++ b ∷ [])) ++ rest)
        ≡ (holding bytes, client_end false)
  run-breaks {blocks = blocks} first rest reads parts =
      run-more flush [] [] first (map block (blocks ++ b ∷ []) ++ rest)
        (deliver-Reads flush [] [] first start id reads)
      ∙ run-Parts [] rest parts
