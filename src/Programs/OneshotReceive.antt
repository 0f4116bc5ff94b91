-- ===== src/Programs/OneshotReceive.antt =====
-- src/bin/diode-oneshot-receive.rs: one transfer, which is written to the standard output.
pub mod Delivers
use lidi.Prelude.{ℕ, Option, none, some, Bool, true, false, ◌||◌, List, [], ◌∷◌, if◌then◌else◌}
use lidi.Prelude.Outcome.{Outcome, ok, err, panic}
use lidi.Protocol
use lidi.Protocol.RaptorQ
use lidi.Protocol.RaptorQ.{RaptorQ}
use lidi.Protocol.Crate.{Raptorq}
use lidi.Stream.{Writer}
use lidi.Threads.{Thread}
use lidi.Threads.Launch.{threads_of}
use lidi.Receive.Client
use lidi.Receive.Client.{Message, End, client_end, failed, panicked, waiting}
use lidi.Receive.Receiver
use lidi.Receive.Receiver.{Config, Receiver, Worker, client, udp, reblock, dispatch, decode}
use lidi.Programs
use lidi.Programs.{Exit, returned, exit, World}

pub record Args : Type 0 where
  pub from_mtu : ℕ
  pub batch : Option ℕ
  pub reset_timeout : ℕ
  pub decode_threads : ℕ
  pub flush : Bool
  pub abort_timeout : Option ℕ
  pub block : ℕ
  pub repair : ℕ
  pub min_repair : ℕ
  pub cpu_affinity : Bool
  pub hash : Bool

-- What `main` has done: its threads, if it has left a scope, and how it ends.
pub record Ran : Type 0 where
  pub threads : List (Thread Worker)
  pub exit : Exit

abbrev ended : Exit → Ran
ended e = record { threads = []; exit = e }

abbrev pub config : Args → Config
config args = record {
  from_mtu = args.from_mtu;
  batch_receive = args.batch;
  reset_timeout = args.reset_timeout;
  nb_decode_threads = args.decode_threads;
  max_clients = 1;
  flush = args.flush;
  abort_timeout = args.abort_timeout;
  heartbeat_interval = none;
  cpu_affinity = args.cpu_affinity;
  hash = args.hash;
}

-- The closure `client_end`
abbrev pub on_client_end : Bool → Exit
on_client_end whole = if whole then exit 0 else exit 1

-- What becomes of the process when the worker of a client has ended; `none`: it goes on.
abbrev pub exit_of : End → Option Exit
exit_of (client_end flag) = some (on_client_end flag)
exit_of (failed e) = none
exit_of panicked = none
exit_of waiting = none

abbrev is_client : Worker → Bool
is_client udp = false
is_client reblock = false
is_client dispatch = false
is_client (decode i) = false
is_client (client i) = true

-- Whether a thread for clients is among these.
pub has_client : List (Thread Worker) → Bool
has_client [] = false
has_client (thread ∷ threads) = is_client thread.0 || has_client threads

-- The worker of a client, to which `client_new` gives the standard output: what is written, and what
-- becomes of the process.
unfoldable pub serve : Bool → Writer → List Message → Writer × Option Exit
serve flush stdout messages = let (w, e) = Client.run flush stdout messages in (w, exit_of e)

module _ (crate : Raptorq) where
  abbrev with_receiver : World → Outcome Receiver.Error (Receiver crate.Packet) → Ran
  with_receiver world (ok r) = record {
    threads = threads_of (Receiver.start r.config world.core_ids world.limit);
    exit = returned;
  }
  with_receiver world (err _) = ended returned
  with_receiver world panic = ended Programs.panicked

  abbrev with_raptorq : Args → World → Outcome Protocol.Error RaptorQ → Ran
  with_raptorq args world (ok raptorq) =
      with_receiver world (Receiver.new world.semaphore (config args) raptorq)
  with_raptorq args world (err _) = ended returned
  with_raptorq args world panic = ended Programs.panicked

  unfoldable pub main : Args → World → Ran
  main args world =
      if world.has_logger
      then with_raptorq args world
          (RaptorQ.new args.from_mtu args.block args.repair args.min_repair)
      else ended returned

  -- What comes of the blocks of a client: the thread for clients serves them, if `main` has one.
  unfoldable pub delivered : Args → World → Writer → List Message → Writer × Option Exit
  unfolding has_client
  delivered args world stdout messages =
      if has_client (main args world).threads
      then serve args.flush stdout messages
      else (stdout, none)
