-- ===== src/Receive/Receiver.antt =====
-- `Receiver` of src/receive/mod.rs: the data that the workers share, and the threads that they run
-- on. The closures for new and ended clients are arguments of the workers that call them, and the
-- address of the configuration is left out.
pub mod Starts
use lidi.Prelude.{ℕ, zero, suc, Option, none, some, Bool, List, [], ◌∷◌, String}
use mathlib.Core.List.{reverse}
use mathlib.Core.Option
use lidi.Prelude.Outcome.{Outcome, ok, err}
use lidi.Protocol
use lidi.Protocol.Block.{Block, ClientId}
use lidi.Protocol.RaptorQ.{RaptorQ}
use lidi.Stream.{IoError}
use lidi.Threads.{
  Scope, Started, going, ◌and_then◌, next_core, take_core, spawn_next, spawn_each, spawn_sharing,
}
use lidi.Send.Sender.{Channel, unbounded, cpu_ids}
use lidi.Receive.{Datagrams, Reassembled}

pub record Config : Type 0 where
  pub from_mtu : ℕ
  pub batch_receive : Option ℕ
  pub reset_timeout : ℕ
  pub nb_decode_threads : ℕ
  pub max_clients : ℕ
  pub flush : Bool
  pub abort_timeout : Option ℕ
  pub heartbeat_interval : Option ℕ
  pub cpu_affinity : Bool
  pub hash : Bool

pub data Error : Type 0 where
  io : IoError → Error
  send_packets send_block_packets send_block send_clients receive receive_timeout : Error
  protocol : Protocol.Error → Error
  other : String → Error

-- `P` stands for the packets; a channel for a client is known by its number.
pub record Receiver (P : Type 0) : Type 0 where
  pub config : Config
  pub raptorq : RaptorQ
  pub multiplex_control : ℕ
  pub block_to_dispatch : ℕ
  pub to_reblock : Channel Datagrams
  pub to_decode : Channel (Reassembled P)
  pub to_dispatch : Channel (Option Block)
  pub to_clients : Channel (ClientId × ℕ)

module _ {P : Type 0} where
  abbrev with_semaphore : Config → RaptorQ → Option ℕ → Outcome Error (Receiver P)
  with_semaphore config raptorq none = err (other "failed to create semaphore")
  with_semaphore config raptorq (some permits) = ok (record {
    config = config;
    raptorq = raptorq;
    multiplex_control = permits;
    block_to_dispatch = 0;
    to_reblock = unbounded;
    to_decode = unbounded;
    to_dispatch = unbounded;
    to_clients = unbounded;
  })

  unfoldable pub new : (ℕ → Option ℕ) → Config → RaptorQ → Outcome Error (Receiver P)
  new semaphore config raptorq = with_semaphore config raptorq (semaphore config.max_clients)

pub data Worker : Type 0 where
  udp reblock dispatch : Worker
  decode client : ℕ → Worker

-- The decoders: the core is taken once, before the loop.
abbrev pub start_decoders : ℕ → Scope Worker → Started Worker
start_decoders nb_decode_threads s =
    spawn_sharing decode (next_core s.cpu_ids).0 0 nb_decode_threads (take_core s)

unfoldable pub start : Config → Option (List ℕ) → ℕ → Started Worker
start config core_ids limit =
    let s : Scope Worker = record {
      cpu_ids = cpu_ids config.cpu_affinity (Option.map reverse core_ids);
      limit = limit;
      spawned = [];
    } in
    spawn_each client 0 config.max_clients s
    and_then spawn_next dispatch
    and_then start_decoders config.nb_decode_threads
    and_then spawn_next reblock
    and_then spawn_next udp
