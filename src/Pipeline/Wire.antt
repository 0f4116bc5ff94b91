-- ===== src/Pipeline/Wire.antt =====
-- The datagrams of numbered blocks on the way from src/send/udp.rs to src/receive/reblock.rs.

use lidi.Prelude.{
  ℕ, ◌+◌, ◌%◌, ◌≤◌, ◌<◌, ◌≡◌, refl, ap, ◌∙◌, Option, List, [], ◌∷◌, ◌++◌, map, length, All, arith,
  concat, take_all,
}
use lidi.Protocol.Block.{Block}
use lidi.Protocol.Crate.{Raptorq, Laws}
use lidi.Protocol.RaptorQ.{RaptorQ, encode}
use lidi.Protocol.RaptorQ.Coding.{number-encode, serialize-encode}
use lidi.Udp.{recv}
use lidi.Send.Udp.Stops.{datagrams, Short}
use lidi.Send.Encoding.InOrder.{coded}
use lidi.Receive.{single}
use lidi.Receive.Clients.{receive_loop}
use lidi.Receive.Reblock.{number, received}
use lidi.Receive.Reblock.Holds.{feed}
use lidi.Turn.{numbered}
use lidi.Pipeline.{Usable, events}

pub All-map :
    {A B : Type 0} (P : B → Type 0) (f : A → B) (l : List A)
    → All (λ a. P (f a)) l
    → All P (map f l)
All-map P f [] h = tt
All-map P f (a ∷ l) h = (h.0, All-map P f l h.1)

pub All-weaken :
    {A : Type 0} (P Q : A → Type 0) (l : List A) → ((a : A) → P a → Q a) → All P l → All Q l
All-weaken P Q [] f h = tt
All-weaken P Q (a ∷ l) f h = (f a h.0, All-weaken P Q l f h.1)

-- Datagrams that fit the buffer arrive uncut.
pub events-feed :
    (mtu : ℕ) (l : List (List ℕ))
    → All (λ datagram. length datagram ≤ mtu) l
    → events mtu l ≡ feed l
unfolding events receive_loop recv
events-feed mtu [] h = refl
events-feed mtu (datagram ∷ l) h =
    rw (take_all mtu datagram h.0)
      (ap (λ r. received (single datagram) ∷ r) (events-feed mtu l h.1))

-- Blocks of the RaptorQ block's size.
abbrev pub Sized : RaptorQ → List Block → Type 0
Sized q = All (λ (b : Block). length b ≡ q.transfer_length)

-- The datagrams of each block.
abbrev pub serialized : Raptorq → RaptorQ → ℕ → List Block → List (List (List ℕ))
serialized crate q id [] = []
serialized crate q id (b ∷ blocks) =
    map crate.serialize (encode crate q id b) ∷ serialized crate q ((id + 1) % 256) blocks

module _ (crate : Raptorq) (laws : Laws crate) (q : RaptorQ) (mtu : ℕ) (u : Usable q mtu) where
  pub datagrams-serialized :
      (batch_send : Option ℕ) (id : ℕ) (blocks : List Block)
      → datagrams crate batch_send (coded crate q (numbered id blocks))
        ≡ concat (serialized crate q id blocks)
  datagrams-serialized batch_send id [] = refl
  datagrams-serialized batch_send id (b ∷ blocks) =
      ap (λ l. map crate.serialize (encode crate q id b) ++ l)
        (datagrams-serialized batch_send ((id + 1) % 256) blocks)

  pub fitting :
      (id : ℕ) (b : Block)
      → id < 256
      → length b ≡ q.transfer_length
      → All (λ datagram. length datagram ≤ mtu) (map crate.serialize (encode crate q id b))
  fitting id b hid sized =
      All-map (λ datagram. length datagram ≤ mtu) crate.serialize (encode crate q id b)
        (All-weaken _ _ (encode crate q id b) (λ p le. omega (arith, le, u.fits))
          (serialize-encode crate laws q u.codable id b hid sized))

  pub serialized-Short :
      (batch_send : Option ℕ) (id : ℕ) (blocks : List Block)
      → id < 256
      → Sized q blocks
      → All (Short crate batch_send) (coded crate q (numbered id blocks))
  serialized-Short batch_send id [] hid sized = tt
  serialized-Short batch_send id (b ∷ blocks) hid sized = (
    All-weaken _ _ (map crate.serialize (encode crate q id b))
        (λ datagram le. omega (arith, le, u.datagram)) (fitting id b hid sized.0),
    serialized-Short batch_send ((id + 1) % 256) blocks (omega arith) sized.1,
  )

  -- Each datagram of a block carries the number of the block.
  pub carrying :
      (id : ℕ) (b : Block)
      → id < 256
      → length b ≡ q.transfer_length
      → All (λ datagram. number crate datagram ≡ id) (map crate.serialize (encode crate q id b))
  carrying id b hid sized =
      All-map (λ datagram. number crate datagram ≡ id) crate.serialize (encode crate q id b)
        (All-weaken _ _ (encode crate q id b)
          (λ p e. ap crate.source_block_number (laws.deserialize-serialize p) ∙ e)
          (number-encode crate laws q u.codable id b hid sized))

  pub deserialized :
      (packets : List crate.Packet) → map crate.deserialize (map crate.serialize packets) ≡ packets
  deserialized [] = refl
  deserialized (p ∷ packets) =
      ap (λ x. x ∷ map crate.deserialize (map crate.serialize packets))
        (laws.deserialize-serialize p)
      ∙ ap (λ l. p ∷ l) (deserialized packets)
