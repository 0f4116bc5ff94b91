-- ===== src/Threads/Launch.antt =====
-- Which threads a sequence of spawns starts, and on which cores.

use lidi.Prelude.{
  ℕ, zero, suc, ◌+◌, ◌≡◌, refl, ap, sym, ◌∙◌, Option, none, some, List, [], ◌∷◌, ◌++◌, length, take,
  drop, Bool, true, false, arith, leb, append_assoc, append-nil,
}
use lidi.Threads.{
  Thread, Scope, Started, going, refused, ◌and_then◌, next_core, spawn, spawn_next, spawn_each,
  spawn_sharing,
}

-- The `n`th core, where there is one.
abbrev pub nth : ℕ → List ℕ → Option ℕ
nth n [] = none
nth zero (core ∷ cores) = some core
nth (suc n) (core ∷ cores) = nth n cores

abbrev pub core : Option (List ℕ) → ℕ → Option ℕ
core none n = none
core (some cores) n = nth n cores

abbrev pub rest_of : Option (List ℕ) → ℕ → Option (List ℕ)
rest_of none n = none
rest_of (some cores) n = some (drop n cores)

next_core-drop :
    (n : ℕ) (cores : List ℕ)
    → next_core (some (drop n cores)) ≡ (nth n cores, some (drop (suc n) cores))
next_core-drop zero [] = refl
next_core-drop zero (core ∷ cores) = refl
next_core-drop (suc n) [] = refl
next_core-drop (suc n) (core ∷ cores) = next_core-drop n cores

pub rest_of-zero : (cpu_ids : Option (List ℕ)) → rest_of cpu_ids 0 ≡ cpu_ids
rest_of-zero none = refl
rest_of-zero (some cores) = refl

pub next_core-rest :
    (cpu_ids : Option (List ℕ)) (n : ℕ)
    → next_core (rest_of cpu_ids n) ≡ (core cpu_ids n, rest_of cpu_ids (suc n))
next_core-rest none n = refl
next_core-rest (some cores) n = next_core-drop n cores

-- The threads that run when `start` goes on or has returned, and whether it goes on.
abbrev pub threads_of : {W : Type 0} → Started W → List (Thread W)
threads_of (going s) = s.spawned
threads_of (refused threads) = threads

abbrev pub goes_on : {W : Type 0} → Started W → Bool
goes_on (going s) = true
goes_on (refused threads) = false

module _ {W : Type 0} (cpu_ids : Option (List ℕ)) where
  -- After `n` cores and these threads.
  abbrev pub at : ℕ → ℕ → List (Thread W) → Scope W
  at n limit threads = record { cpu_ids = rest_of cpu_ids n; limit = limit; spawned = threads }

  -- What spawning these threads comes to, once the cores are taken up to the `m`th.
  abbrev pub launched : ℕ → List (Thread W) → ℕ → List (Thread W) → Started W
  launched m [] limit threads = going (at m limit threads)
  launched m (thread ∷ plan) zero threads = refused threads
  launched m (thread ∷ plan) (suc limit) threads = launched m plan limit (threads ++ thread ∷ [])

  -- A part of `start` that spawns `plan`, and takes the cores from the `n`th up to the `m`th.
  abbrev pub Launches : ℕ → ℕ → List (Thread W) → (Scope W → Started W) → Type 0
  Launches n m plan part =
      (limit : ℕ) (threads : List (Thread W))
      → part (at n limit threads) ≡ launched m plan limit threads

  launched-and_then :
      (m l : ℕ) (plan plan' : List (Thread W)) (part : Scope W → Started W) (limit : ℕ)
      (threads : List (Thread W))
      → Launches m l plan' part
      → (launched m plan limit threads and_then part) ≡ launched l (plan ++ plan') limit threads
  launched-and_then m l [] plan' part limit threads h = h limit threads
  launched-and_then m l (thread ∷ plan) plan' part zero threads h = refl
  launched-and_then m l (thread ∷ plan) plan' part (suc limit) threads h =
      launched-and_then m l plan plan' part limit (threads ++ thread ∷ []) h

  pub Launches-and_then :
      (n m l : ℕ) (plan plan' : List (Thread W)) (part part' : Scope W → Started W)
      → Launches n m plan part
      → Launches m l plan' part'
      → Launches n l (plan ++ plan') (λ s. part s and_then part')
  Launches-and_then n m l plan plan' part part' h h' limit threads =
      ap (λ r. r and_then part') (h limit threads)
      ∙ launched-and_then m l plan plan' part' limit threads h'

  -- The next part of a `start` that has got so far.
  pub chain :
      (m l : ℕ) (plan plan' : List (Thread W)) (limit : ℕ) (threads : List (Thread W))
      (part : Scope W → Started W) {r : Started W}
      → r ≡ launched m plan limit threads
      → Launches m l plan' part
      → (r and_then part) ≡ launched l (plan ++ plan') limit threads
  chain m l plan plan' limit threads part e h =
      ap (λ r. r and_then part) e ∙ launched-and_then m l plan plan' part limit threads h

  pub Launches-going : (n : ℕ) → Launches n n [] going
  Launches-going n limit threads = refl

  pub Launches-spawn :
      (n : ℕ) (worker : W) (c : Option ℕ) → Launches n n ((worker, c) ∷ []) (spawn worker c)
  Launches-spawn n worker c zero threads = refl
  Launches-spawn n worker c (suc limit) threads = refl

  pub Launches-spawn_next :
      (n : ℕ) (worker : W) → Launches n (suc n) ((worker, core cpu_ids n) ∷ []) (spawn_next worker)
  unfolding spawn_next
  Launches-spawn_next n worker zero threads = refl
  Launches-spawn_next n worker (suc limit) threads =
      ap
        (λ (x : Option ℕ × Option (List ℕ)).
          going (record { cpu_ids = x.1; limit = limit; spawned = threads ++ (worker, x.0) ∷ [] }))
        (next_core-rest cpu_ids n)

  -- Workers numbered from `i` on, each with the next core from the `n`th on.
  abbrev pub each : (ℕ → W) → ℕ → ℕ → ℕ → List (Thread W)
  each worker i n zero = []
  each worker i n (suc k) = (worker i, core cpu_ids n) ∷ each worker (i + 1) (suc n) k

  -- Workers numbered from `i` on, all with one core.
  abbrev pub sharing : (ℕ → W) → Option ℕ → ℕ → ℕ → List (Thread W)
  sharing worker c i zero = []
  sharing worker c i (suc k) = (worker i, c) ∷ sharing worker c (i + 1) k

  pub Launches-each :
      (worker : ℕ → W) (i n k m : ℕ)
      → m ≡ n + k
      → Launches n m (each worker i n k) (spawn_each worker i k)
  unfolding spawn_each
  Launches-each worker i n zero m e limit threads =
      ap (λ m. going (at m limit threads)) (omega arith)
  Launches-each worker i n (suc k) m e limit threads =
      Launches-and_then n (suc n) m ((worker i, core cpu_ids n) ∷ [])
        (each worker (i + 1) (suc n) k) (spawn_next (worker i)) (spawn_each worker (i + 1) k)
        (Launches-spawn_next n (worker i)) (Launches-each worker (i + 1) (suc n) k m (omega arith))
        limit threads

  pub Launches-sharing :
      (worker : ℕ → W) (c : Option ℕ) (i n k : ℕ)
      → Launches n n (sharing worker c i k) (spawn_sharing worker c i k)
  unfolding spawn_sharing
  Launches-sharing worker c i n zero limit threads = refl
  Launches-sharing worker c i n (suc k) limit threads =
      Launches-and_then n n n ((worker i, c) ∷ []) (sharing worker c (i + 1) k) (spawn (worker i) c)
        (spawn_sharing worker c (i + 1) k) (Launches-spawn n (worker i) c)
        (Launches-sharing worker c (i + 1) n k) limit threads

  -- The first threads of the plan run, as many as the system lets be spawned.
  pub threads_of-launched :
      (m : ℕ) (plan : List (Thread W)) (limit : ℕ) (threads : List (Thread W))
      → threads_of (launched m plan limit threads) ≡ threads ++ take limit plan
  threads_of-launched m [] zero threads = sym (append-nil threads)
  threads_of-launched m [] (suc limit) threads = sym (append-nil threads)
  threads_of-launched m (thread ∷ plan) zero threads = sym (append-nil threads)
  threads_of-launched m (thread ∷ plan) (suc limit) threads =
      threads_of-launched m plan limit (threads ++ thread ∷ [])
      ∙ append_assoc threads (thread ∷ []) (take limit plan)

  -- The whole plan runs if the system lets so many threads be spawned, and only then.
  pub goes_on-launched :
      (m : ℕ) (plan : List (Thread W)) (limit : ℕ) (threads : List (Thread W))
      → goes_on (launched m plan limit threads) ≡ leb (length plan) limit
  goes_on-launched m [] limit threads = ground arith
  goes_on-launched m (thread ∷ plan) zero threads = ground arith
  goes_on-launched m (thread ∷ plan) (suc limit) threads =
      goes_on-launched m plan limit (threads ++ thread ∷ []) ∙ ground arith
