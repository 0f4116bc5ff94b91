-- ===== src/Threads.antt =====
-- Threads as src/send/mod.rs and src/receive/mod.rs spawn them: each with a name, here its worker, and
-- with a core that it sets its affinity to. The system lets only so many threads be spawned.
pub mod Launch
use lidi.Prelude.{ℕ, zero, suc, ◌+◌, Option, none, some, List, [], ◌∷◌, ◌++◌}

-- A spawned thread: its worker and its core.
abbrev pub Thread : Type 0 → Type 0
Thread W = W × Option ℕ

-- The iterator over the cores, how many calls of `spawn_scoped` succeed, and what was spawned.
pub record Scope (W : Type 0) : Type 0 where
  pub cpu_ids : Option (List ℕ)
  pub limit : ℕ
  pub spawned : List (Thread W)

-- `start` goes on, or has returned an I/O error; the threads of the scope run on in both cases.
pub data Started (W : Type 0) : Type 0 where
  going : Scope W → Started W
  refused : List (Thread W) → Started W

-- `?`
infixl 5 ◌and_then◌
abbrev pub ◌and_then◌ : {W : Type 0} → Started W → (Scope W → Started W) → Started W
going s and_then f = f s
refused threads and_then f = refused threads

-- `cpu_ids.as_mut().and_then(iter::Iterator::next)`
abbrev pub next_core : Option (List ℕ) → Option ℕ × Option (List ℕ)
next_core none = (none, none)
next_core (some []) = (none, some [])
next_core (some (core ∷ cores)) = (some core, some cores)

-- `spawn_scoped`
abbrev spawn_within : {W : Type 0} → ℕ → W → Option ℕ → Scope W → Started W
spawn_within zero worker core s = refused s.spawned
spawn_within (suc limit) worker core s =
    going (record s { limit = limit; spawned = s.spawned ++ (worker, core) ∷ [] })

abbrev pub spawn : {W : Type 0} → W → Option ℕ → Scope W → Started W
spawn worker core s = spawn_within s.limit worker core s

abbrev pub take_core : {W : Type 0} → Scope W → Scope W
take_core s = record s { cpu_ids = (next_core s.cpu_ids).1 }

-- A thread on the next core.
unfoldable pub spawn_next : {W : Type 0} → W → Scope W → Started W
spawn_next worker s = spawn worker (next_core s.cpu_ids).0 (take_core s)

-- `for i in first..first + n`, each thread on the next core
pub spawn_each : {W : Type 0} → (ℕ → W) → ℕ → ℕ → Scope W → Started W
unfolding spawn_next
spawn_each worker i zero s = going s
spawn_each worker i (suc n) s =
    spawn_next (worker i) s and_then λ s'. spawn_each worker (i + 1) n s'

-- The same loop with one core for all of its threads
pub spawn_sharing : {W : Type 0} → (ℕ → W) → Option ℕ → ℕ → ℕ → Scope W → Started W
spawn_sharing worker core i zero s = going s
spawn_sharing worker core i (suc n) s =
    spawn (worker i) core s and_then λ s'. spawn_sharing worker core (i + 1) n s'
