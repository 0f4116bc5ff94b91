-- ===== src/Protocol/RaptorQ.antt =====
-- `RaptorQ` of src/protocol.rs: the block and packet sizes, and encoding and decoding through the
-- crate. Arithmetic wraps, as in the release build. The fields `plan` and `config` of the source
-- are functions of the other fields, and are computed where they are used.
pub mod Sizes
pub mod Coding
use lidi.Prelude.{
  ℕ, ◌+◌, ◌-◌, ◌*◌, ◌/◌, ◌%◌, ◌^◌, Option, List, ◌++◌, ltb, ◌==◌, if◌then◌else◌, String,
}
use lidi.Prelude.Outcome.{Outcome, ok, err, panic, ◌>>=◌}
use lidi.Protocol.{Error, other}
use lidi.Protocol.Crate.{Raptorq}

pub record RaptorQ : Type 0 where
  pub max_packet_size : ℕ
  pub symbol_count : ℕ
  pub transfer_length : ℕ
  pub nb_repair_packets : ℕ
  pub min_nb_repair_packets : ℕ

abbrev packet_header_size : ℕ
packet_header_size = 20 + 8

abbrev raptorq_alignment : ℕ
raptorq_alignment = 8

abbrev raptorq_header_size : ℕ
raptorq_header_size = 4

abbrev sub_u16 : ℕ → ℕ → ℕ
sub_u16 a b = (a + 2 ^ 16 - b) % 2 ^ 16

-- `a / b`, which panics at 0
abbrev div_or_panic : ℕ → ℕ → Outcome Error ℕ
div_or_panic a b = if b == 0 then panic else ok (a / b)

-- `u16::try_from(n)`, with the label of its `map_err`
abbrev try_u16 : String → ℕ → Outcome Error ℕ
try_u16 label n = if ltb n (2 ^ 16) then ok n else err (other label)

-- The packets that `percentage` of a block makes.
abbrev pub share : ℕ → ℕ → ℕ → ℕ
share transfer_length percentage max_packet_size =
    transfer_length / 100 * percentage % 2 ^ 32 / max_packet_size

-- The payload of a UDP packet that fits the MTU, rounded down to the alignment.
pub packet_size : ℕ → ℕ
packet_size mtu =
    let size = sub_u16 (sub_u16 mtu packet_header_size) raptorq_header_size in
    size - size % raptorq_alignment

unfoldable pub new : ℕ → ℕ → ℕ → ℕ → Outcome Error RaptorQ
unfolding packet_size
new mtu block_size repair_percentage min_repair_percentage = do
  let max_packet_size = packet_size mtu
  symbols ← div_or_panic block_size max_packet_size
  symbol_count ← try_u16 "symbol_count" symbols
  let transfer_length = max_packet_size * symbol_count % 2 ^ 32
  nb_repair_packets ←
      try_u16 "nb_repair_packets" (share transfer_length repair_percentage max_packet_size)
  min_nb_repair_packets ←
      try_u16 "min_nb_repair_packets" (share transfer_length min_repair_percentage max_packet_size)
  ok (record {
    max_packet_size = max_packet_size;
    symbol_count = symbol_count;
    transfer_length = transfer_length;
    nb_repair_packets =
        if ltb nb_repair_packets min_nb_repair_packets
        then min_nb_repair_packets
        else nb_repair_packets;
    min_nb_repair_packets = min_nb_repair_packets;
  })

abbrev pub block_size : RaptorQ → ℕ
block_size q = q.transfer_length

-- `u16` addition
abbrev pub min_nb_packets : RaptorQ → ℕ
min_nb_packets q = (q.symbol_count + q.min_nb_repair_packets) % 2 ^ 16

-- `u32` addition
abbrev pub nb_packets : RaptorQ → ℕ
nb_packets q = (q.symbol_count + q.nb_repair_packets) % 2 ^ 32

module _ (crate : Raptorq) where
  abbrev pub plan : RaptorQ → crate.Plan
  plan q = crate.generate q.symbol_count

  abbrev pub config : RaptorQ → crate.Config
  config q = crate.with_defaults q.transfer_length q.max_packet_size

  unfoldable pub encode : RaptorQ → ℕ → List ℕ → List crate.Packet
  encode q block_id bytes =
      let packets = crate.source_packets block_id (config q) bytes (plan q) in
      if ltb 0 q.nb_repair_packets
      then packets
        ++ crate.repair_packets block_id (config q) bytes (plan q) (crate.symbol_size (config q))
            q.nb_repair_packets
      else packets

  unfoldable pub decode : RaptorQ → ℕ → List crate.Packet → Option (List ℕ)
  decode q block_id packets = crate.decode block_id (config q) q.transfer_length packets
