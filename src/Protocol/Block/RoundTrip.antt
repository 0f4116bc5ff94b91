-- ===== src/Protocol/Block/RoundTrip.antt =====
-- What the receiver reads of a block that `Block::new` of src/protocol.rs made.
use mathlib.Core.Option.{get_or}
use mathlib.Core.Path.{subst}
use native.Mathlib.Decide.{dec_lt}
use lidi.Prelude.{
  ℕ, ◌+◌, ◌-◌, ◌^◌, ◌≤◌, ◌<◌, ◌≡◌, refl, ap, Option, none, some, List, [], ◌++◌, arith, length,
  replicate, length-append, le→leb, take-append_length,
}
use lidi.Prelude.Bytes.{from_le_bytes-to_le_bytes}
use lidi.Prelude.Outcome.{ok}
use lidi.Protocol.RaptorQ.{RaptorQ}
use lidi.Protocol.Block.{
  BlockType, heartbeat, start, data_block, abort, end, ClientId, Block, client_id, block_type,
  payload_len, payload, new, serialize_overhead,
}
use lidi.Protocol.Block.Layout.{
  layout, padding, new_empty-layout, new_with-layout, new_with-too_long,
}

pub client_id-layout :
    (block : BlockType) (id len : ℕ) (rest : List ℕ)
    → id < 2 ^ 32
    → client_id (layout block id len rest) ≡ ok id
unfolding client_id
client_id-layout block id len rest h = ap ok (from_le_bytes-to_le_bytes 4 id h)

pub block_type-layout :
    (block : BlockType) (id len : ℕ) (rest : List ℕ)
    → block_type (layout block id len rest) ≡ ok block
unfolding block_type
block_type-layout heartbeat id len rest = refl
block_type-layout start id len rest = refl
block_type-layout data_block id len rest = refl
block_type-layout abort id len rest = refl
block_type-layout end id len rest = refl

pub payload_len-layout :
    (block : BlockType) (id len : ℕ) (rest : List ℕ)
    → len < 2 ^ 32
    → payload_len (layout block id len rest) ≡ ok len
unfolding payload_len
payload_len-layout block id len rest h = ap ok (from_le_bytes-to_le_bytes 4 len h)

pub payload-layout :
    (block : BlockType) (id : ℕ) (bytes pad : List ℕ)
    → length bytes < 2 ^ 32
    → payload (layout block id (length bytes) (bytes ++ pad)) ≡ ok bytes
unfolding payload
payload-layout block id bytes pad h =
    rw (payload_len-layout block id (length bytes) (bytes ++ pad) h) (
      rw
        (
          le→leb serialize_overhead (serialize_overhead + length bytes) (omega arith),
          le→leb (serialize_overhead + length bytes)
              (length (layout block id (length bytes) (bytes ++ pad)))
              (omega (arith, length-append bytes pad)),
        )
        (ap ok (
          take-append_length (serialize_overhead + length bytes - serialize_overhead) bytes pad
            (omega arith))))

-- Header fields and data of a block.
pub record Reads (b : Block) (block : BlockType) (id : ClientId) (bytes : List ℕ) : Type 0 where
  pub owner : client_id b ≡ ok id
  pub kind : block_type b ≡ ok block
  pub content : payload b ≡ ok bytes

pub layout-Reads :
    (block : BlockType) (id : ℕ) (bytes pad : List ℕ)
    → id < 2 ^ 32
    → length bytes < 2 ^ 32
    → Reads (layout block id (length bytes) (bytes ++ pad)) block id bytes
layout-Reads block id bytes pad hid hlen = record {
  owner = client_id-layout block id (length bytes) (bytes ++ pad) hid;
  kind = block_type-layout block id (length bytes) (bytes ++ pad);
  content = payload-layout block id bytes pad hlen;
}

-- Whatever block `Block::new` returns, with or without data, the receiver reads back from it the
-- client, the type and exactly the data (none where none was given), if the transfer length has
-- room for the header.
pub new-Reads :
    (capacity : ℕ → ℕ → ℕ) (block : BlockType) (q : RaptorQ) (id : ClientId)
    (bytes : Option (List ℕ)) (b : Block)
    → serialize_overhead ≤ q.transfer_length
    → id < 2 ^ 32
    → new capacity block q id bytes ≡ ok b
    → Reads b block id (get_or bytes [])
unfolding new
new-Reads capacity block q id none b h hid e =
    subst (λ b. Reads b block id []) made
      (layout-Reads block id [] (replicate (q.transfer_length - 9) 0) hid (omega arith))
  where
    made : layout block id 0 (replicate (q.transfer_length - 9) 0) ≡ b
    made = cc (e, new_empty-layout block q id h)
new-Reads capacity block q id (some bytes) b h hid e = elim (dec_lt (length bytes) (2 ^ 32)) [
  | yes short ↦
      subst (λ b. Reads b block id bytes) (made short)
        (layout-Reads block id bytes (replicate (padding capacity q bytes) 0) hid short)
  | no long ↦ cc (e, new_with-too_long capacity block q id bytes (omega arith))
]
  where
    made :
        length bytes < 2 ^ 32
        → layout block id (length bytes) (bytes ++ replicate (padding capacity q bytes) 0) ≡ b
    made short = cc (e, new_with-layout capacity block q id bytes short)
