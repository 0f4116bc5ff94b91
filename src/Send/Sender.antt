-- ===== src/Send/Sender.antt =====
-- `Sender` of src/send/mod.rs: the data that the workers share, and the threads that they run on. Of
-- the channels only the one to the servers is filled here; a send waits while a bounded channel is
-- full, so `items` is all that was sent. The addresses of the configuration are left out.
pub mod Starts
use lidi.Prelude.{
  ℕ, zero, suc, Option, none, some, Bool, List, [], ◌∷◌, ◌++◌, ◌==◌, if◌then◌else◌, String,
}
use lidi.Prelude.Outcome.{Outcome, ok, err, ◌>>=◌}
use lidi.Protocol
use lidi.Protocol.RaptorQ.{RaptorQ}
use lidi.Stream.{IoError}
use lidi.Threads.{Scope, Started, going, ◌and_then◌, spawn_next, spawn_each}

pub record Config : Type 0 where
  pub max_clients : ℕ
  pub flush : Bool
  pub nb_encode_threads : ℕ
  pub heartbeat_interval : Option ℕ
  pub to_mtu : ℕ
  pub batch_send : Option ℕ
  pub cpu_affinity : Bool
  pub hash : Bool

pub data Error : Type 0 where
  io : IoError → Error
  send_block send_udp receive : Error
  protocol : Protocol.Error → Error
  diode other : String → Error

-- A channel of crossbeam: `receivers` counts the live ends that receive.
pub record Channel (A : Type 0) : Type 0 where
  pub capacity : Option ℕ
  pub receivers : ℕ
  pub items : List A

abbrev pub bounded : {A : Type 0} → ℕ → Channel A
bounded n = record { capacity = some n; receivers = 1; items = [] }

abbrev pub unbounded : {A : Type 0} → Channel A
unbounded = record { capacity = none; receivers = 1; items = [] }

-- `send`, which fails when nothing can receive
abbrev pub send : {A : Type 0} → A → Channel A → Option (Channel A)
send a c = if c.receivers == 0 then none else some (record c { items = c.items ++ a ∷ [] })

-- The channels to the ordering, encoding and UDP workers are known by their capacities alone.
pub record Sender (C : Type 0) : Type 0 where
  pub config : Config
  pub raptorq : RaptorQ
  pub multiplex_control : ℕ
  pub block_to_send : ℕ
  pub to_server : Channel (Option C)
  pub to_ordering : ℕ
  pub to_encoding : ℕ
  pub to_send : ℕ

-- `semka::Sem::new` gives a semaphore with so many permits, or nothing.
module _ {C : Type 0} where
  abbrev with_semaphore : Config → RaptorQ → Option ℕ → Outcome Error (Sender C)
  with_semaphore config raptorq none = err (other "failed to create semaphore")
  with_semaphore config raptorq (some permits) = ok (record {
    config = config;
    raptorq = raptorq;
    multiplex_control = permits;
    block_to_send = 0;
    to_server = bounded 1;
    to_ordering = config.nb_encode_threads;
    to_encoding = config.nb_encode_threads;
    to_send = config.nb_encode_threads;
  })

  unfoldable pub new : (ℕ → Option ℕ) → Config → RaptorQ → Outcome Error (Sender C)
  new semaphore config raptorq = with_semaphore config raptorq (semaphore config.max_clients)

  abbrev enqueued : String → Sender C → Option (Channel (Option C)) → Outcome Error (Sender C)
  enqueued label s none = err (diode label)
  enqueued label s (some c) = ok (record s { to_server = c })

  unfoldable pub new_client : C → Sender C → Outcome Error (Sender C)
  new_client client s = enqueued "failed to enqueue client" s (send (some client) s.to_server)

  unfoldable pub stop : Sender C → Outcome Error (Sender C)
  stop s = enqueued "failed to stop" s (send none s.to_server)

pub data Worker : Type 0 where
  udp ordering heartbeat : Worker
  encoding client : ℕ → Worker

-- `core_ids` is what `core_affinity::get_core_ids` returns.
abbrev pub cpu_ids : Bool → Option (List ℕ) → Option (List ℕ)
cpu_ids cpu_affinity core_ids = if cpu_affinity then core_ids else none

abbrev pub start_heartbeat : Option ℕ → Scope Worker → Started Worker
start_heartbeat none s = going s
start_heartbeat (some interval) s = spawn_next heartbeat s

unfoldable pub start : Config → Option (List ℕ) → ℕ → Started Worker
start config core_ids limit =
    let s : Scope Worker = record {
      cpu_ids = cpu_ids config.cpu_affinity core_ids;
      limit = limit;
      spawned = [];
    } in
    spawn_next udp s
    and_then spawn_next ordering
    and_then spawn_each encoding 0 config.nb_encode_threads
    and_then start_heartbeat config.heartbeat_interval
    and_then spawn_each client 0 config.max_clients
