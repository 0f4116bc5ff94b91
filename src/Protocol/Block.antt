-- ===== src/Protocol/Block.antt =====
-- `BlockType` and `Block` of src/protocol.rs: the bytes of one protocol block. A byte vector is a
-- list of numbers; indexing out of range is `panic`.
pub mod Layout
pub mod RoundTrip
pub mod Hostile
use mathlib.Core.List
use lidi.Prelude.{
  ℕ, ◌+◌, ◌-◌, ◌%◌, ◌^◌, Option, none, some, List, [], ◌∷◌, ◌++◌, ltb, leb, ◌==◌, if◌then◌else◌,
  length, replicate, String,
}
use lidi.Prelude.Bytes.{to_le_bytes, from_le_bytes}
use lidi.Prelude.Outcome.{Outcome, ok, err, panic, ◌>>=◌}
use lidi.Prelude.Slices.{get_elem?, index, store, slice}
use lidi.Protocol.{Error, invalid_block_type, other}
use lidi.Protocol.RaptorQ.{RaptorQ}

pub data BlockType : Type 0 where
  heartbeat start data_block abort end : BlockType

-- `BlockType::serialized`, with the constants `ID_HEARTBEAT` to `ID_END`
abbrev pub serialized_type : BlockType → ℕ
serialized_type heartbeat = 0x00
serialized_type start = 0x01
serialized_type data_block = 0x02
serialized_type abort = 0x03
serialized_type end = 0x04

abbrev pub ClientId : Type 0
ClientId = ℕ

-- `CLIENT_ID_COUNTER.fetch_add(1)`: the old value is returned, and the counter wraps.
abbrev pub new_client_id : ℕ → ClientId × ℕ
new_client_id counter = (counter, (counter + 1) % 2 ^ 32)

abbrev pub Block : Type 0
Block = List ℕ

abbrev pub serialize_overhead : ℕ
serialize_overhead = 4 + 1 + 4

-- The arm of `Block::new` with no data.
unfoldable pub new_empty : BlockType → RaptorQ → ClientId → Outcome Error Block
new_empty block raptorq client_id = do
  let content = replicate raptorq.transfer_length 0
  let bytes = to_le_bytes 4 client_id
  b0 ← index bytes 0
  content ← store content 0 b0
  b1 ← index bytes 1
  content ← store content 1 b1
  b2 ← index bytes 2
  content ← store content 2 b2
  b3 ← index bytes 3
  content ← store content 3 b3
  store content 4 (serialized_type block)

-- `content.resize(capacity, 0)`, made only where it grows the vector
abbrev pub pad_to : ℕ → List ℕ → List ℕ
pad_to capacity content =
    if ltb (length content) capacity
    then content ++ replicate (capacity - length content) 0
    else content

-- The arm of `Block::new` with data. `capacity n len` is the capacity of a vector made by
-- `Vec::with_capacity(n)` once `len` bytes have been pushed.
unfoldable pub new_with :
    (ℕ → ℕ → ℕ) → BlockType → RaptorQ → ClientId → List ℕ → Outcome Error Block
new_with capacity block raptorq client_id bytes =
    if ltb (length bytes) (2 ^ 32)
    then (let content =
          to_le_bytes 4 client_id
          ++ (serialized_type block ∷ (to_le_bytes 4 (length bytes) ++ bytes)) in
        ok (pad_to (capacity raptorq.transfer_length (length content)) content))
    else err (other "data.len()")

unfoldable pub new :
    (ℕ → ℕ → ℕ) → BlockType → RaptorQ → ClientId → Option (List ℕ) → Outcome Error Block
unfolding new_empty new_with
new capacity block raptorq client_id none = new_empty block raptorq client_id
new capacity block raptorq client_id (some bytes) = new_with capacity block raptorq client_id bytes

-- `u32::from_le_bytes([b[i], b[i + 1], b[i + 2], b[i + 3]])`
abbrev read_u32 : Block → ℕ → Outcome Error ℕ
read_u32 b i = do
  b0 ← index b i
  b1 ← index b (i + 1)
  b2 ← index b (i + 2)
  b3 ← index b (i + 3)
  ok (from_le_bytes (b0 ∷ b1 ∷ b2 ∷ b3 ∷ []))

unfoldable pub client_id : Block → Outcome Error ClientId
client_id b = read_u32 b 0

-- `block_type` on the byte that it finds
abbrev pub parse_type : Option ℕ → Outcome Error BlockType
parse_type none = err (invalid_block_type none)
parse_type (some b) =
    if b == 0x00
    then ok heartbeat
    else if b == 0x01
    then ok start
    else if b == 0x02
    then ok data_block
    else if b == 0x03
    then ok abort
    else if b == 0x04
    then ok end
    else err (invalid_block_type (some b))

unfoldable pub block_type : Block → Outcome Error BlockType
block_type b = parse_type (get_elem? b 4)

unfoldable pub payload_len : Block → Outcome Error ℕ
payload_len b = read_u32 b 5

abbrev pub deserialize : List ℕ → Block
deserialize bytes = bytes

abbrev pub serialized : Block → List ℕ
serialized b = b

-- `usize` subtraction
abbrev pub max_data_len : RaptorQ → ℕ
max_data_len raptorq = (raptorq.transfer_length + 2 ^ 64 - serialize_overhead) % 2 ^ 64

unfoldable pub payload : Block → Outcome Error (List ℕ)
payload b = do len ← payload_len b; slice b serialize_overhead (serialize_overhead + len)
