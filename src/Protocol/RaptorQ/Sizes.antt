-- ===== src/Protocol/RaptorQ/Sizes.antt =====
-- The sizes that `RaptorQ::new` of src/protocol.rs chooses.
use native.Mathlib.Nat.{div-add-mod}
use lidi.Prelude.{ℕ, ◌+◌, ◌*◌, ◌%◌, ◌^◌, ◌≤◌, ◌<◌, ◌≡◌, arith}
use lidi.Prelude.Outcome.{ok}
use lidi.Protocol.RaptorQ.{RaptorQ, new, packet_size}

-- The RaptorQ block is the largest multiple of the packet size within the size asked for.
pub record IsSized (mtu block_size : ℕ) (q : RaptorQ) : Type 0 where
  pub fits : q.max_packet_size + 32 ≤ mtu
  pub aligned : q.max_packet_size % 8 ≡ 0
  pub positive : 0 < q.max_packet_size
  pub symbols : q.symbol_count < 2 ^ 16
  pub product : q.transfer_length ≡ q.max_packet_size * q.symbol_count
  pub within : q.transfer_length ≤ block_size
  pub close : block_size < q.transfer_length + q.max_packet_size
  pub repair : q.min_nb_repair_packets ≤ q.nb_repair_packets
  pub few : q.nb_repair_packets < 2 ^ 16

packet_size_bounds :
    (mtu : ℕ)
    → mtu < 2 ^ 16
    → (packet_size mtu % 8 ≡ 0)
      × (packet_size mtu < 2 ^ 16)
      × (32 ≤ mtu → packet_size mtu + 32 ≤ mtu)
unfolding packet_size
packet_size_bounds mtu h = (omega arith, omega arith, λ big. omega arith)

-- With an MTU that holds the headers (32 bytes) and fits 16 bits, and a block size below 2^32, a
-- configuration that `RaptorQ::new` accepts has packets that fit the MTU and are aligned to 8 bytes,
-- a block of `symbol_count` packets that is the largest one within the size asked for, and at
-- least the minimum of repair packets.
pub new-IsSized :
    (mtu block_size repair min_repair : ℕ) {q : RaptorQ}
    → 32 ≤ mtu
    → mtu < 2 ^ 16
    → block_size < 2 ^ 32
    → new mtu block_size repair min_repair ≡ ok q
    → IsSized mtu block_size q
unfolding new
new-IsSized mtu block_size repair min_repair {q} big hm hb e =
    ground (arith, big, packet_size_bounds mtu hm, div-add-mod block_size (packet_size mtu))
