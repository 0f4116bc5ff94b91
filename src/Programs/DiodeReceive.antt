-- ===== src/Programs/DiodeReceive.antt =====
-- src/bin/diode-receive.rs: the receiver, which connects to a TCP or Unix server for each transfer. An
-- address and a path are texts, a connection is what can be written to it. `Connection` is its `Client`.
pub mod Serves
use lidi.Prelude.{ℕ, Option, none, some, Bool, List, [], String, if◌then◌else◌}
use lidi.Prelude.Outcome.{Outcome, ok, err, panic, ◌>>=◌, map_err}
use lidi.Protocol
use lidi.Protocol.Crate.{Raptorq}
use lidi.Protocol.RaptorQ
use lidi.Protocol.RaptorQ.{RaptorQ}
use lidi.Stream.{IoError, Writer}
use lidi.Threads.{Thread}
use lidi.Threads.Launch.{threads_of}
use lidi.Receive.Client
use lidi.Receive.Receiver
use lidi.Receive.Receiver.{Config, Receiver, Worker}
use lidi.Programs
use lidi.Programs.{Exit, returned, World}

-- clap asks for one of them, and no more.
pub record Clients : Type 0 where
  pub to_tcp : Option String
  pub to_unix : Option String

pub record Args : Type 0 where
  pub from_mtu : ℕ
  pub batch : Option ℕ
  pub reset_timeout : ℕ
  pub decode_threads : ℕ
  pub max_clients : ℕ
  pub flush : Bool
  pub abort_timeout : Option ℕ
  pub to : Clients
  pub block : ℕ
  pub repair : ℕ
  pub min_repair : ℕ
  pub heartbeat : Option ℕ
  pub cpu_affinity : Bool
  pub hash : Bool

pub data Connection : Type 0 where
  tcp unix : Writer → Connection

-- How the `connect`s of the two kinds of sockets turn out.
pub record Network : Type 0 where
  pub to_tcp : String → Outcome IoError Writer
  pub to_unix : String → Outcome IoError Writer

abbrev try_unix : Network → Option String → Outcome IoError Connection
try_unix network none = panic
try_unix network (some path) = do w ← network.to_unix path; ok (unix w)

abbrev try_tcp : Network → Option String → Option String → Outcome IoError Connection
try_tcp network none to_unix = try_unix network to_unix
try_tcp network (some address) to_unix = do w ← network.to_tcp address; ok (tcp w)

-- `Client::try_from`
unfoldable pub try_from : Network → Clients → Outcome IoError Connection
try_from network clients = try_tcp network clients.to_tcp clients.to_unix

-- `Write for Client`: both kinds pass `write` and `flush` on.
abbrev pub writer : Connection → Writer
writer (tcp w) = w
writer (unix w) = w

-- The closure `client_new`, and the conversion of its error.
unfoldable pub client_new : Network → Clients → Outcome Client.Error Writer
client_new network to = do c ← map_err Client.Error.io (try_from network to); ok (writer c)

abbrev pub config : Args → Config
config args = record {
  from_mtu = args.from_mtu;
  batch_receive = args.batch;
  reset_timeout = args.reset_timeout;
  nb_decode_threads = args.decode_threads;
  max_clients = args.max_clients;
  flush = args.flush;
  abort_timeout = args.abort_timeout;
  heartbeat_interval = args.heartbeat;
  cpu_affinity = args.cpu_affinity;
  hash = args.hash;
}

pub record Ran : Type 0 where
  pub workers : List (Thread Worker)
  pub exit : Exit

abbrev stopped : Exit → Ran
stopped e = record { workers = []; exit = e }

module _ (crate : Raptorq) where
  abbrev with_receiver : World → Outcome Receiver.Error (Receiver crate.Packet) → Ran
  with_receiver world (ok r) = record {
    workers = threads_of (Receiver.start r.config world.core_ids world.limit);
    exit = returned;
  }
  with_receiver world (err _) = stopped returned
  with_receiver world panic = stopped Programs.panicked

  abbrev with_raptorq : World → Args → Outcome Protocol.Error RaptorQ → Ran
  with_raptorq world args (ok raptorq) =
      with_receiver world (Receiver.new world.semaphore (config args) raptorq)
  with_raptorq world args (err _) = stopped returned
  with_raptorq world args panic = stopped Programs.panicked

  unfoldable pub main : World → Args → Ran
  main world args =
      if world.has_logger
      then with_raptorq world args
          (RaptorQ.new args.from_mtu args.block args.repair args.min_repair)
      else stopped returned
