-- ===== src/Receive/Receiver/Starts.antt =====
-- The threads that `Receiver::start` of src/receive/mod.rs spawns.
use mathlib.Core.List.{reverse}
use mathlib.Core.Option
use lidi.Prelude.{ℕ, suc, ◌≡◌, ap, sym, ◌∙◌, Option, List, [], ◌∷◌, ◌++◌, length, take, arith, leb}
use lidi.Threads.{Thread, spawn_next, spawn_each, spawn_sharing}
use lidi.Threads.Launch.{
  core, launched, Launches, chain, rest_of-zero, next_core-rest, Launches-spawn_next, each,
  Launches-each, sharing, Launches-sharing, threads_of, goes_on, threads_of-launched,
  goes_on-launched,
}
use lidi.Send.Sender.{cpu_ids}
use lidi.Receive.Receiver.{
  Config, Worker, udp, reblock, dispatch, decode, client, start_decoders, start,
}

-- The threads of a receiver: one worker for each client at a time, one that dispatches, the decoders,
-- one that reassembles and one that receives. The cores go to them in this order, but the
-- decoders all have one.
abbrev pub receiver_plan : Config → Option (List ℕ) → List (Thread Worker)
receiver_plan config cores =
    let n = config.max_clients in
    each cores client 0 0 n
    ++ (dispatch, core cores n) ∷ []
    ++ sharing cores decode (core cores (suc n)) 0 config.nb_decode_threads
    ++ (reblock, core cores (suc (suc n))) ∷ []
    ++ (udp, core cores (suc (suc (suc n)))) ∷ []

module _ (config : Config) (core_ids : Option (List ℕ)) where
  abbrev cores : Option (List ℕ)
  cores = cpu_ids config.cpu_affinity (Option.map reverse core_ids)

  Launches-decoders :
      (n k : ℕ)
      → Launches cores n (suc n) (sharing cores decode (core cores n) 0 k) (start_decoders k)
  Launches-decoders n k limit threads =
      ap
        (λ (x : Option ℕ × Option (List ℕ)).
          spawn_sharing decode x.0 0 k (record { cpu_ids = x.1; limit = limit; spawned = threads }))
        (next_core-rest cores n)
      ∙ Launches-sharing cores decode (core cores n) 0 (suc n) k limit threads

  start-launched :
      (limit : ℕ)
      → (m : ℕ) × (start config core_ids limit
          ≡ launched cores m (receiver_plan config cores) limit [])
  unfolding start
  start-launched limit =
      let n = config.max_clients in
      let k = config.nb_decode_threads in
      let plan_1 : List (Thread Worker) = each cores client 0 0 n in
      let first =
        ap (λ c. spawn_each client 0 n (record { cpu_ids = c; limit = limit; spawned = [] }))
          (sym (rest_of-zero cores))
        ∙ Launches-each cores client 0 0 n n (omega arith) limit [] in
      let dispatching : List (Thread Worker) = (dispatch, core cores n) ∷ [] in
      let second =
        chain cores n (suc n) plan_1 dispatching limit [] (spawn_next dispatch) first
          (Launches-spawn_next cores n dispatch) in
      let plan_2 = plan_1 ++ dispatching in
      let decoding = sharing cores decode (core cores (suc n)) 0 k in
      let third =
        chain cores (suc n) (suc (suc n)) plan_2 decoding limit [] (start_decoders k) second
          (Launches-decoders (suc n) k) in
      let plan_3 = plan_2 ++ decoding in
      let reblocking : List (Thread Worker) = (reblock, core cores (suc (suc n))) ∷ [] in
      let fourth =
        chain cores (suc (suc n)) (suc (suc (suc n))) plan_3 reblocking limit []
          (spawn_next reblock) third (Launches-spawn_next cores (suc (suc n)) reblock) in
      (
        suc (suc (suc (suc n))),
        chain cores (suc (suc (suc n))) (suc (suc (suc (suc n)))) (plan_3 ++ reblocking)
            ((udp, core cores (suc (suc (suc n)))) ∷ []) limit [] (spawn_next udp) fourth
            (Launches-spawn_next cores (suc (suc (suc n))) udp),
      )

  -- When `start` goes on or has returned, exactly the first threads of the receiver's plan run, as
  -- many as the system let be spawned, each on its core where affinity is asked for, and all decoders on one;
  -- it goes on if the system lets the whole plan be spawned, and else returns an error.
  pub start-receiver_plan :
      (limit : ℕ)
      → (threads_of (start config core_ids limit) ≡ take limit (receiver_plan config cores))
        × (goes_on (start config core_ids limit) ≡ leb (length (receiver_plan config cores)) limit)
  start-receiver_plan limit =
      let (m, e) = start-launched limit in
      (
        ap (threads_of {W = Worker}) e
            ∙ threads_of-launched cores m (receiver_plan config cores) limit [],
        ap (goes_on {W = Worker}) e
            ∙ goes_on-launched cores m (receiver_plan config cores) limit [],
      )
