-- ===== src/Send/Sender/Starts.antt =====
-- The threads that `Sender::start` of src/send/mod.rs spawns.
use lidi.Prelude.{
  ℕ, ◌+◌, ◌≡◌, refl, ap, sym, ◌∙◌, Option, none, some, List, [], ◌∷◌, ◌++◌, length, take, arith,
  leb,
}
use lidi.Threads.{Thread, going, spawn_next, spawn_each}
use lidi.Threads.Launch.{
  core, at, launched, Launches, chain, rest_of-zero, Launches-spawn_next, each, Launches-each,
  threads_of, goes_on, threads_of-launched, goes_on-launched,
}
use lidi.Send.Sender.{
  Config, Worker, udp, ordering, heartbeat, encoding, client, cpu_ids, start_heartbeat, start,
}

-- How many threads beat, and how many cores they take.
abbrev pub beats : Option ℕ → ℕ
beats none = 0
beats (some interval) = 1

-- The threads of a sender: one that sends, one that numbers, the encoders, one that beats if it is
-- asked for, and one server for each client at a time; the cores go to them in this order.
abbrev pub sender_plan : Config → Option (List ℕ) → List (Thread Worker)
sender_plan config cores =
    let encoders = config.nb_encode_threads in
    let beating = beats config.heartbeat_interval in
    (udp, core cores 0) ∷ (ordering, core cores 1) ∷ each cores encoding 0 2 encoders
    ++ each cores (λ i. heartbeat) 0 (2 + encoders) beating
    ++ each cores client 0 (2 + encoders + beating) config.max_clients

module _ (config : Config) (core_ids : Option (List ℕ)) where
  abbrev cores : Option (List ℕ)
  cores = cpu_ids config.cpu_affinity core_ids

  Launches-heartbeat :
      (n : ℕ) (interval : Option ℕ)
      → Launches cores n
          (n + beats interval)
          (each cores (λ i. heartbeat) 0 n (beats interval))
          (start_heartbeat interval)
  Launches-heartbeat n none limit threads = ap (λ m. going (at cores m limit threads)) (omega arith)
  Launches-heartbeat n (some interval) limit threads =
      Launches-spawn_next cores n heartbeat limit threads
      ∙ ap (λ m. launched cores m ((heartbeat, core cores n) ∷ []) limit threads) (omega arith)

  start-launched :
      (limit : ℕ)
      → (m : ℕ) × (start config core_ids limit
          ≡ launched cores m (sender_plan config cores) limit [])
  unfolding start
  start-launched limit =
      let n = config.nb_encode_threads in
      let b = beats config.heartbeat_interval in
      let first =
        ap (λ c. spawn_next udp (record { cpu_ids = c; limit = limit; spawned = [] }))
          (sym (rest_of-zero cores))
        ∙ Launches-spawn_next cores 0 udp limit [] in
      let plan_1 : List (Thread Worker) = (udp, core cores 0) ∷ [] in
      let ordering_only : List (Thread Worker) = (ordering, core cores 1) ∷ [] in
      let second =
        chain cores 1 2 plan_1 ordering_only limit [] (spawn_next ordering) first
          (Launches-spawn_next cores 1 ordering) in
      let plan_2 = plan_1 ++ ordering_only in
      let third =
        chain cores 2 (2 + n) plan_2 (each cores encoding 0 2 n) limit [] (spawn_each encoding 0 n)
          second (Launches-each cores encoding 0 2 n (2 + n) refl) in
      let plan_3 = plan_2 ++ each cores encoding 0 2 n in
      let beating = each cores (λ i. heartbeat) 0 (2 + n) b in
      let fourth =
        chain cores (2 + n) (2 + n + b) plan_3 beating limit []
          (start_heartbeat config.heartbeat_interval) third
          (Launches-heartbeat (2 + n) config.heartbeat_interval) in
      (
        2 + n + b + config.max_clients,
        chain cores (2 + n + b) (2 + n + b + config.max_clients) (plan_3 ++ beating)
            (each cores client 0 (2 + n + b) config.max_clients) limit []
            (spawn_each client 0 config.max_clients) fourth
            (Launches-each cores client 0 (2 + n + b) config.max_clients _ refl),
      )

  -- When `start` goes on or has returned, exactly the first threads of the sender's plan run, as
  -- many as the system let be spawned, each on its core where affinity is asked for;
  -- it goes on if the system lets the whole plan be spawned, and else returns an error.
  pub start-sender_plan :
      (limit : ℕ)
      → (threads_of (start config core_ids limit) ≡ take limit (sender_plan config cores))
        × (goes_on (start config core_ids limit) ≡ leb (length (sender_plan config cores)) limit)
  start-sender_plan limit =
      let (m, e) = start-launched limit in
      (
        ap (threads_of {W = Worker}) e
            ∙ threads_of-launched cores m (sender_plan config cores) limit [],
        ap (goes_on {W = Worker}) e ∙ goes_on-launched cores m (sender_plan config cores) limit [],
      )
