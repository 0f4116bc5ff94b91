-- ===== src/Programs/DiodeReceive/Serves.antt =====
-- What src/bin/diode-receive.rs runs and writes.
use mathlib.Core.Option
use mathlib.Core.List.{reverse}
use mathlib.Core.Path.{subst}
use lidi.Prelude.{ℕ, ◌≡◌, refl, sym, none, some, Bool, true, List, [], map, take, String}
use lidi.Prelude.Outcome.{ok}
use lidi.Protocol.Crate.{Raptorq}
use lidi.Protocol.RaptorQ
use lidi.Protocol.RaptorQ.{RaptorQ}
use lidi.Send.Sender.{cpu_ids}
use lidi.Receive.Client.Delivers.{holding}
use lidi.Receive.Clients
use lidi.Receive.Clients.{Transferring, disconnected}
use lidi.Receive.Clients.Serves.{Whole, transferring, expected, start-serves}
use lidi.Receive.Receiver.{new}
use lidi.Receive.Receiver.Starts.{receiver_plan, start-receiver_plan}
use lidi.Programs.{World}
use lidi.Programs.DiodeReceive.{Clients as To, Args, Network, client_new, try_from, config, main}

-- The server that is asked for can be reached: the TCP one if it is given, else the Unix one.
pub data Reaches (network : Network) (to : To) : Type 0 where
  by_tcp :
      (address : String)
      → to.to_tcp ≡ some address
      → network.to_tcp address ≡ ok (holding [])
      → Reaches network to
  by_unix :
      (path : String)
      → to.to_tcp ≡ none
      → to.to_unix ≡ some path
      → network.to_unix path ≡ ok (holding [])
      → Reaches network to

connected :
    {network : Network} {to : To} → Reaches network to → client_new network to ≡ ok (holding [])
unfolding client_new try_from
connected (by_tcp address e reached) = rw (e, reached) refl
connected (by_unix path e e' reached) = rw (e, e', reached) refl

-- A whole transfer, to a client that this program makes.
abbrev pub to_server : (network : Network) (to : To) (q : RaptorQ) → Bool → Whole q → Transferring
to_server network to q flush t = record (transferring flush q t) {
  client_new = client_new network to;
}

-- With a logger, a configuration that `RaptorQ::new` accepts, a semaphore and a server that can be
-- reached, each time by a connection that takes all: `main` runs as many of the first threads of a
-- receiver as the system let be spawned, and a worker for clients writes exactly the bytes of each whole transfer to a connection of its own,
-- between the two uses of the semaphore, and ends the client with `true`.
pub main-serves :
    (crate : Raptorq) (args : Args) (world : World) (network : Network) (q : RaptorQ) (permits : ℕ)
    (transfers : List (Whole q))
    → world.has_logger ≡ true
    → RaptorQ.new args.from_mtu args.block args.repair args.min_repair ≡ ok q
    → world.semaphore args.max_clients ≡ some permits
    → Reaches network args.to
    → ((main crate world args).workers
        ≡ take world.limit (
            receiver_plan
              (config args)
              (cpu_ids args.cpu_affinity (Option.map reverse world.core_ids))))
      × (Clients.start args.flush (map (to_server network args.to q args.flush) transfers)
          ≡ (expected args.flush q transfers, disconnected))
unfolding main new
main-serves crate args world network q permits transfers logged sized made reached = (
  rw (logged, sized, made) ((start-receiver_plan (config args) world.core_ids world.limit).0),
  subst
      (λ client.
        Clients.start args.flush
          (map (λ t. record (transferring args.flush q t) { client_new = client }) transfers)
        ≡ (expected args.flush q transfers, disconnected))
      (sym (connected reached)) (start-serves args.flush q transfers),
)
