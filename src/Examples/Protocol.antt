-- ===== src/Examples/Protocol.antt =====
-- The theorems about src/protocol.rs at concrete inputs.
use lidi.Prelude.{ℕ, ◌≡◌, refl, some, List, [], ◌∷◌, arith, take, max}
use lidi.Prelude.Outcome.{ok}
use lidi.Protocol.RaptorQ
use lidi.Protocol.RaptorQ.{RaptorQ, nb_packets, encode, decode}
use lidi.Protocol.RaptorQ.Sizes.{IsSized, new-IsSized}
use lidi.Protocol.RaptorQ.Coding.{IsCodable, decode-take-encode}
use lidi.Protocol.Block.{data_block, Block, new, new_with}
use lidi.Protocol.Block.Layout.{layout}
use lidi.Protocol.Block.RoundTrip.{Reads, new-Reads}
use lidi.Examples.Crate.{crate, laws}

-- Two packets of 8 bytes and a repair packet.
abbrev pub small : RaptorQ
small = record {
  max_packet_size = 8;
  symbol_count = 2;
  transfer_length = 16;
  nb_repair_packets = 1;
  min_nb_repair_packets = 0;
}

-- A vector's capacity that never grows beyond need.
abbrev pub exact : ℕ → ℕ → ℕ
exact n len = max n len

abbrev pub eight_twice : List ℕ
eight_twice = 1 ∷ 2 ∷ 3 ∷ 4 ∷ 5 ∷ 6 ∷ 7 ∷ 8 ∷ 9 ∷ 10 ∷ 11 ∷ 12 ∷ 13 ∷ 14 ∷ 15 ∷ 16 ∷ []

pub small-IsCodable : IsCodable small
small-IsCodable = record { symbols = omega arith; product = refl; few = omega arith }

abbrev tenth : RaptorQ
tenth = record {
  max_packet_size = 8;
  symbol_count = 100;
  transfer_length = 800;
  nb_repair_packets = 10;
  min_nb_repair_packets = 5;
}

new-tenth : RaptorQ.new 40 803 10 5 ≡ ok tenth
unfolding RaptorQ.new
new-tenth = refl

new-IsSized_example : IsSized 40 803 tenth
new-IsSized_example =
    new-IsSized 40 803 10 5 {q = tenth} (omega arith) (omega arith) (omega arith) new-tenth

decode-take-encode_example :
    decode crate small 7 (take 2 (encode crate small 7 eight_twice)) ≡ some eight_twice
decode-take-encode_example =
    decode-take-encode crate laws small small-IsCodable 7 eight_twice (omega arith) refl 2
      (omega arith)

-- A data block of client 258 with three bytes.
abbrev three : Block
three = layout data_block 258 3 (7 ∷ 8 ∷ 9 ∷ 0 ∷ 0 ∷ 0 ∷ 0 ∷ [])

new-three : new exact data_block small 258 (some (7 ∷ 8 ∷ 9 ∷ [])) ≡ ok three
unfolding new new_with
new-three = refl

new-Reads_example : Reads three data_block 258 (7 ∷ 8 ∷ 9 ∷ [])
new-Reads_example =
    new-Reads exact data_block small 258 (some (7 ∷ 8 ∷ 9 ∷ [])) three (omega arith) (omega arith)
      new-three
