-- ===== src/Protocol/Block/Hostile.antt =====
-- Blocks that no `Block::new` made: what the readers of src/protocol.rs do with a header whose
-- length field passes the end of the block.
use lidi.Prelude.{ℕ, ◌+◌, ◌^◌, ◌<◌, ◌≡◌, List, arith, length, le→leb, gt→leb}
use lidi.Prelude.Outcome.{ok, panic}
use lidi.Protocol.Block.{BlockType, ClientId, client_id, block_type, payload, serialize_overhead}
use lidi.Protocol.Block.Layout.{layout}
use lidi.Protocol.Block.RoundTrip.{client_id-layout, block_type-layout, payload_len-layout}

-- A block whose length field says more than the bytes behind the header passes every check of the
-- dispatcher (its client and its type are read), and its payload panics.
pub payload-lying :
    (block : BlockType) (id : ClientId) (len : ℕ) (rest : List ℕ)
    → id < 2 ^ 32
    → len < 2 ^ 32
    → length rest < len
    → let b = layout block id len rest in
      (client_id b ≡ ok id) × (block_type b ≡ ok block) × (payload b ≡ panic)
unfolding payload
payload-lying block id len rest hid hlen lying = (
  client_id-layout block id len rest hid,
  block_type-layout block id len rest,
  rw (payload_len-layout block id len rest hlen) (
      rw (
        le→leb serialize_overhead (serialize_overhead + len) (omega arith),
        gt→leb (serialize_overhead + len) (length (layout block id len rest)) (omega arith),
      )),
)
