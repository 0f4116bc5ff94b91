-- ===== src/Programs/OneshotSend.antt =====
-- src/bin/diode-oneshot-send.rs: one transfer, of what comes on the standard input.
pub mod Serves
use lidi.Prelude.{ℕ, Option, none, some, Bool, true, false, List, [], ◌∷◌, ◌++◌, if◌then◌else◌}
use lidi.Prelude.Outcome.{Outcome, ok, err, panic, ◌>>=◌}
use lidi.Protocol
use lidi.Protocol.RaptorQ
use lidi.Protocol.RaptorQ.{RaptorQ}
use lidi.Stream.{Reader}
use lidi.Threads.{Thread, Started, going, refused}
use lidi.Threads.Launch.{threads_of}
use lidi.Send.Sender
use lidi.Send.Sender.{Config, Sender, Worker, new_client, stop}
use lidi.Programs.{Exit, returned, panicked, exit, World}

pub record Args : Type 0 where
  pub encode_threads : ℕ
  pub flush : Bool
  pub to_mtu : ℕ
  pub batch : Option ℕ
  pub block : ℕ
  pub repair : ℕ
  pub cpu_affinity : Bool
  pub hash : Bool

-- What `main` has done: the threads, what is on the channel to the servers, and how it ends.
pub record Ran : Type 0 where
  pub threads : List (Thread Worker)
  pub to_server : List (Option Reader)
  pub exit : Exit

abbrev ended : Exit → Ran
ended e = record { threads = []; to_server = []; exit = e }

abbrev pub config : Args → Config
config args = record {
  max_clients = 1;
  flush = args.flush;
  nb_encode_threads = args.encode_threads;
  heartbeat_interval = none;
  to_mtu = args.to_mtu;
  batch_send = args.batch;
  cpu_affinity = args.cpu_affinity;
  hash = args.hash;
}

-- `stop`, whose failure is only logged, and the exit with what `new_client` left.
abbrev after_client :
    List (Thread Worker) → Exit → Sender Reader → Outcome Sender.Error (Sender Reader) → Ran
after_client threads e s (ok s') = record {
  threads = threads;
  to_server = s'.to_server.items;
  exit = e;
}
after_client threads e s (err _) = record {
  threads = threads;
  to_server = s.to_server.items;
  exit = e;
}
after_client threads e s panic = record {
  threads = threads;
  to_server = s.to_server.items;
  exit = panicked;
}

-- From what `new_client` returned
abbrev with_client :
    List (Thread Worker) → Sender Reader → Outcome Sender.Error (Sender Reader) → Ran
with_client threads s (ok s') = after_client threads returned s' (stop s')
with_client threads s (err _) = after_client threads (exit 1) s (stop s)
with_client threads s panic = after_client threads panicked s (ok s)

-- The scope; `start` may have failed, which is only logged.
abbrev with_sender : Args → World → Reader → Outcome Sender.Error (Sender Reader) → Ran
with_sender args world stdin (ok s) =
    with_client (threads_of (Sender.start s.config world.core_ids world.limit)) s
      (new_client stdin s)
with_sender args world stdin (err _) = ended returned
with_sender args world stdin panic = ended panicked

abbrev with_raptorq : Args → World → Reader → Outcome Protocol.Error RaptorQ → Ran
with_raptorq args world stdin (ok raptorq) =
    with_sender args world stdin (Sender.new world.semaphore (config args) raptorq)
with_raptorq args world stdin (err _) = ended returned
with_raptorq args world stdin panic = ended panicked

unfoldable pub main : Args → World → Reader → Ran
main args world stdin =
    if world.has_logger
    then with_raptorq args world stdin (RaptorQ.new args.to_mtu args.block args.repair 0)
    else ended returned
