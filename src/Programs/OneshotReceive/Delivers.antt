-- ===== src/Programs/OneshotReceive/Delivers.antt =====
-- What src/bin/diode-oneshot-receive.rs writes, and its exit code.
use lidi.Prelude.{
  ℕ, zero, suc, ◌<◌, ◌≡◌, ◌∙◌, refl, arith, Option, ap, some, true, List, [], ◌++◌, map, take,
}
use lidi.Prelude.Outcome.{ok}
use lidi.Protocol.Crate.{Raptorq}
use lidi.Protocol.RaptorQ
use lidi.Protocol.RaptorQ.{RaptorQ}
use lidi.Protocol.Block.{ClientId, Block}
use lidi.Stream.{Writer}
use lidi.Receive.Client.{Message, End, block}
use lidi.Receive.Client.Delivers.{holding, run-delivers}
use lidi.Send.Client.Carries.{Transfer}
use lidi.Send.Sender.{cpu_ids}
use mathlib.Core.Option
use mathlib.Core.List.{reverse}
use lidi.Receive.Receiver.{Config, new}
use lidi.Receive.Receiver.Starts.{receiver_plan, start-receiver_plan}
use lidi.Programs.{returned, exit, World}
use lidi.Programs.OneshotReceive.{Args, Ran, config, main, exit_of, serve, has_client, delivered}

main-ran :
    (crate : Raptorq) (args : Args) (world : World) (q : RaptorQ) (permits : ℕ)
    → world.has_logger ≡ true
    → RaptorQ.new args.from_mtu args.block args.repair args.min_repair ≡ ok q
    → world.semaphore 1 ≡ some permits
    → main crate args world ≡ record {
      threads = take world.limit (
          receiver_plan
            (config args)
            (cpu_ids args.cpu_affinity (Option.map reverse world.core_ids)));
      exit = returned;
    }
unfolding main new
main-ran crate args world q permits logged sized made =
    let e = (start-receiver_plan (config args) world.core_ids world.limit).0 in
    rw (logged, sized, made) (ap (λ threads. record { threads = threads; exit = returned }) e)

first_thread :
    (config : Config) (cores : Option (List ℕ)) (limit : ℕ)
    → config.max_clients ≡ 1
    → 0 < limit
    → has_client (take limit (receiver_plan config cores)) ≡ true
unfolding has_client
first_thread config cores zero one h = absurd (omega (arith, h))
first_thread config cores (suc limit) one h = rw one refl

-- With a logger, a configuration that `RaptorQ::new` accepts, a semaphore and a system that lets one
-- thread at least be spawned: `main` runs the threads of a receiver for one client, as many of the
-- first as the system lets be spawned; and the blocks of a whole transfer, whatever comes behind them,
-- make its thread for clients write exactly the bytes that they carry to a standard output that takes
-- all, and leave the process with code 0.
pub main-delivers :
    (crate : Raptorq) (args : Args) (world : World) (q : RaptorQ) (permits : ℕ) {id : ClientId}
    {bytes : List ℕ} {blocks : List Block} (rest : List Message)
    → world.has_logger ≡ true
    → RaptorQ.new args.from_mtu args.block args.repair args.min_repair ≡ ok q
    → world.semaphore 1 ≡ some permits
    → 0 < world.limit
    → Transfer q id bytes blocks
    → ((main crate args world).threads
        ≡ take world.limit (
            receiver_plan
              (config args)
              (cpu_ids args.cpu_affinity (Option.map reverse world.core_ids))))
      × (delivered crate args world (holding []) (map block blocks ++ rest)
          ≡ (holding bytes, some (exit 0)))
unfolding serve delivered
main-delivers crate args world q permits rest logged sized made some_thread transfer =
    let threads =
      ap (λ (r : Ran). r.threads) (main-ran crate args world q permits logged sized made) in
    let cores = cpu_ids args.cpu_affinity (Option.map reverse world.core_ids) in
    let has =
      ap has_client threads ∙ first_thread (config args) cores world.limit refl some_thread in
    (
      threads,
      rw has
          (ap (λ (r : Writer × End). (r.0, exit_of r.1)) (run-delivers args.flush rest transfer)),
    )
