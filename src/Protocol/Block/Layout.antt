-- ===== src/Protocol/Block/Layout.antt =====
-- The bytes that `Block::new` of src/protocol.rs writes, and how it can fail.
use lidi.Prelude.{
  ℕ, suc, ◌+◌, ◌-◌, ◌^◌, ◌≤◌, ◌<◌, ◌≡◌, ap, Option, none, some, List, [], ◌∷◌, ◌++◌, arith, length,
  replicate, length-replicate, length-append, append-nil, lt→ltb, ge→ltb,
}
use mathlib.Core.Option.{get_or}
use native.Mathlib.Decide.{dec_lt}
use lidi.Prelude.Bytes.{to_le_bytes}
use lidi.Prelude.Outcome.{ok, err}
use lidi.Protocol.{other}
use lidi.Protocol.RaptorQ.{RaptorQ}
use lidi.Protocol.Block.{
  BlockType, start, ClientId, Block, serialized_type, new_empty, new_with, new, pad_to,
  max_data_len, serialize_overhead,
}

-- The header of a block, then `rest`.
abbrev pub layout : BlockType → ClientId → ℕ → List ℕ → Block
layout block client_id len rest =
    to_le_bytes 4 client_id ++ (serialized_type block ∷ (to_le_bytes 4 len ++ rest))

pub length-layout :
    (block : BlockType) (client_id len : ℕ) (rest : List ℕ)
    → length (layout block client_id len rest) ≡ 9 + length rest
length-layout block client_id len rest = omega arith

empty_at :
    (block : BlockType) (q : RaptorQ) (client_id m : ℕ)
    → q.transfer_length ≡ suc (suc (suc (suc (suc (suc (suc (suc (suc m))))))))
    → new_empty block q client_id ≡ ok (layout block client_id 0 (replicate m 0))
unfolding new_empty
empty_at block q client_id m e = rw e (ground arith)

pub new_empty-layout :
    (block : BlockType) (q : RaptorQ) (client_id : ClientId)
    → serialize_overhead ≤ q.transfer_length
    → new_empty block q client_id
      ≡ ok (layout block client_id 0 (replicate (q.transfer_length - 9) 0))
new_empty-layout block q client_id h =
    empty_at block q client_id (q.transfer_length - 9) (omega arith)

-- The zero bytes after the data, up to the vector's capacity.
abbrev pub padding : (ℕ → ℕ → ℕ) → RaptorQ → List ℕ → ℕ
padding capacity q bytes =
    let len = length (layout start 0 0 bytes) in capacity q.transfer_length len - len

padded :
    (n : ℕ) (block : BlockType) (client_id : ClientId) (bytes : List ℕ)
    → let len = length (layout start 0 0 bytes) in
      pad_to n (layout block client_id (length bytes) bytes)
      ≡ layout block client_id (length bytes) (bytes ++ replicate (n - len) 0)
padded n block client_id bytes = elim (dec_lt (length (layout start 0 0 bytes)) n) [
  | yes h ↦ rw (lt→ltb (length (layout start 0 0 bytes)) n h)
  | no h ↦
      let none_left : n - length (layout start 0 0 bytes) ≡ 0 = omega arith in
      rw (ge→ltb (length (layout start 0 0 bytes)) n (omega arith), none_left, append-nil)
]

pub new_with-layout :
    (capacity : ℕ → ℕ → ℕ) (block : BlockType) (q : RaptorQ) (client_id : ClientId) (bytes : List ℕ)
    → length bytes < 2 ^ 32
    → new_with capacity block q client_id bytes
      ≡ ok (layout block client_id (length bytes) (bytes ++ replicate (padding capacity q bytes) 0))
unfolding new_with
new_with-layout capacity block q client_id bytes h =
    rw (lt→ltb (length bytes) (2 ^ 32) h)
      (ap ok (padded (capacity q.transfer_length _) block client_id bytes))

-- With data, `Block::new` fails only where the length does not fit 32 bits.
pub new_with-too_long :
    (capacity : ℕ → ℕ → ℕ) (block : BlockType) (q : RaptorQ) (client_id : ClientId) (bytes : List ℕ)
    → 2 ^ 32 ≤ length bytes
    → new_with capacity block q client_id bytes ≡ err (other "data.len()")
unfolding new_with
new_with-too_long capacity block q client_id bytes h = rw (ge→ltb (length bytes) (2 ^ 32) h)

-- A block has the RaptorQ block's size, where its data fits and the vector's capacity is the size
-- asked for.
pub length-new :
    (capacity : ℕ → ℕ → ℕ) (block : BlockType) (q : RaptorQ) (client_id : ClientId)
    (bytes : Option (List ℕ))
    → serialize_overhead ≤ q.transfer_length
    → q.transfer_length < 2 ^ 32
    → length (get_or bytes []) ≤ max_data_len q
    → ((len : ℕ) → len ≤ q.transfer_length → capacity q.transfer_length len ≡ q.transfer_length)
    → (b : Block) × (new capacity block q client_id bytes ≡ ok b) × (length b ≡ q.transfer_length)
unfolding new
length-new capacity block q client_id none h small fits exact = (
  layout block client_id 0 (replicate (q.transfer_length - 9) 0),
  new_empty-layout block q client_id h,
  omega (arith, length-replicate {A = ℕ} (q.transfer_length - 9) 0),
)
length-new capacity block q client_id (some bytes) h small fits exact =
    let len = length (layout start 0 0 bytes) in
    (
      layout block client_id (length bytes) (bytes ++ replicate (padding capacity q bytes) 0),
      new_with-layout capacity block q client_id bytes (omega arith),
      omega (
        arith,
        length-append bytes (replicate (padding capacity q bytes) 0),
        length-replicate {A = ℕ} (padding capacity q bytes) 0,
        exact len (omega arith),
      ),
    )
