-- ===== src/Send/Client/Rounds.antt =====
-- Single rounds of the loop of src/send/client.rs.

use lidi.Prelude.{
  ℕ, suc, ◌-◌, ◌^◌, ◌≤◌, ◌<◌, ◌≡◌, ap, ◌∙◌, some, Bool, true, false, ◌||◌, List, [], ◌∷◌, ◌++◌,
  length, take, drop, arith, leb, lt→ltb, append-nil,
}
use lidi.Prelude.Outcome.{ok, err}
use lidi.Protocol.RaptorQ.{RaptorQ}
use lidi.Protocol.Block.{
  BlockType, data_block, end, ClientId, Block, new, max_data_len, serialize_overhead,
}
use lidi.Protocol.Block.Layout.{length-new}
use lidi.Protocol.Block.RoundTrip.{Reads, new-Reads}
use lidi.Stream.{Reader, read, failed}
use lidi.Stream.Laws.{Tried}
use lidi.Send.Client.{
  io, Round, again, sent, finished, stopped, round, before, loop, on_read, on_result, send_end,
  send_data,
}

-- What the worker relies on: there is room for data, the sizes fit their types, and a vector has
-- the capacity that it was made with while it holds no more.
pub record Setting (capacity : ℕ → ℕ → ℕ) (q : RaptorQ) (id : ClientId) : Type 0 where
  pub room : serialize_overhead < q.transfer_length
  pub small : q.transfer_length < 2 ^ 32
  pub known : id < 2 ^ 32
  pub exact :
      (len : ℕ) → len ≤ q.transfer_length → capacity q.transfer_length len ≡ q.transfer_length

pub not_full : (flush : Bool) (size cursor : ℕ) → (flush || leb size cursor) ≡ false → cursor < size
not_full flush size cursor e = ground arith

module _ (capacity : ℕ → ℕ → ℕ) (flush : Bool) (q : RaptorQ) (id : ClientId)
    (set : Setting capacity q id) where
  -- A block with data that fits.
  pub record Made (kind : BlockType) (bytes : List ℕ) : Type 0 where
    pub block : Block
    pub made : new capacity kind q id (some bytes) ≡ ok block
    pub reads : Reads block kind id bytes
    pub sized : length block ≡ q.transfer_length

  pub make : (kind : BlockType) (bytes : List ℕ) → length bytes ≤ max_data_len q → Made kind bytes
  make kind bytes h =
      let (block, made, sized) =
        length-new capacity kind q id (some bytes) (omega (arith, set.room)) set.small h
          set.exact in
      record {
        block = block;
        made = made;
        reads =
            new-Reads capacity kind q id (some bytes) block (omega (arith, set.room)) set.known
              made;
        sized = sized;
      }

  -- What a round comes to, from what its read returned.
  pub round-read :
      (filled : List ℕ) (client : Reader) (tried : Tried (max_data_len q - length filled) client)
      → round capacity flush q id filled client
        ≡ on_read capacity flush q id filled
            (take tried.count client.input)
            (record { input = drop tried.count client.input; schedule = tried.after })
  unfolding round
  round-read filled client tried = ap (on_result capacity flush q id filled) tried.result

  pub round-failed :
      (filled : List ℕ) (client : Reader)
      → read client (max_data_len q - length filled) ≡ err failed
      → round capacity flush q id filled client ≡ stopped (err (io failed))
  unfolding round
  round-failed filled client e = ap (on_result capacity flush q id filled) e

  pub on_read-end :
      (filled : List ℕ) (client : Reader) (m : Made end filled)
      → on_read capacity flush q id filled [] client ≡ finished m.block
  on_read-end filled client m =
      ap (λ l. send_end capacity flush q id (new capacity end q id (some l))) (append-nil filled)
      ∙ ap (send_end capacity flush q id) m.made

  pub on_read-again :
      (filled bytes : List ℕ) (client : Reader)
      → 0 < length bytes
      → (flush || leb (max_data_len q) (length (filled ++ bytes))) ≡ false
      → on_read capacity flush q id filled bytes client ≡ again (filled ++ bytes) client
  on_read-again filled bytes client h e = rw (lt→ltb 0 (length bytes) h, e)

  pub on_read-sent :
      (filled bytes : List ℕ) (client : Reader) (m : Made data_block (filled ++ bytes))
      → 0 < length bytes
      → (flush || leb (max_data_len q) (length (filled ++ bytes))) ≡ true
      → on_read capacity flush q id filled bytes client ≡ sent m.block client
  on_read-sent filled bytes client m h e =
      rw (lt→ltb 0 (length bytes) h, e) (ap (send_data capacity flush q id client) m.made)

  pub loop-round :
      (fuel : ℕ) (filled : List ℕ) (client : Reader) {r : Round}
      → round capacity flush q id filled client ≡ r
      → loop capacity flush q id (suc fuel) filled client ≡ (elim r [
        | again filled' client' ↦ loop capacity flush q id fuel filled' client'
        | sent block client' ↦
            before capacity flush q id block (loop capacity flush q id fuel [] client')
        | finished block ↦ some (block ∷ [], ok tt)
        | stopped result ↦ some ([], result)
      ])
  unfolding loop
  loop-round fuel filled client e = rw (e, loop)
