-- ===== src/Examples/World.antt =====
-- Sizes of blocks and a host, for the programs.

use lidi.Prelude.{◌≡◌, refl, some, true, [], ◌∷◌, arith}
use lidi.Prelude.Outcome.{ok}
use lidi.Protocol.RaptorQ
use lidi.Protocol.RaptorQ.{RaptorQ, nb_packets, encode, decode}
use lidi.Protocol.RaptorQ.Coding.{IsCodable}
use lidi.Send.Client.Rounds.{Setting}
use lidi.Programs.{World}
use lidi.Examples.Protocol.{exact}

-- Two packets of 8 bytes and no repair packet.
abbrev pub plain : RaptorQ
plain = record {
  max_packet_size = 8;
  symbol_count = 2;
  transfer_length = 16;
  nb_repair_packets = 0;
  min_nb_repair_packets = 0;
}

pub new-plain : RaptorQ.new 40 20 2 0 ≡ ok plain
unfolding RaptorQ.new
new-plain = refl

pub plain-IsCodable : IsCodable plain
plain-IsCodable = record { symbols = omega arith; product = refl; few = omega arith }

pub plain-Setting : Setting exact plain 1
plain-Setting = record {
  room = omega arith;
  small = omega arith;
  known = omega arith;
  exact = λ len h. omega arith;
}

-- Two cores; all threads but the last few can be spawned.
abbrev pub world : World
world = record {
  has_logger = true;
  semaphore = λ n. some n;
  core_ids = some (0 ∷ 1 ∷ []);
  limit = 5;
}
