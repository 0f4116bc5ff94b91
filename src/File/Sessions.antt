-- ===== src/File/Sessions.antt =====
-- The loops around single files: `send_files` and `send_file` of src/aux/file/send.rs, and
-- `receive_tcp_loop` and `receive_unix_loop` of src/aux/file/receive.rs, which differ only in the
-- kind of their socket. A connection is what connecting or accepting returns.
pub mod Counts
use lidi.Prelude.{
  ℕ, zero, suc, ◌+◌, Option, none, some, Bool, true, false, not, ◌&&◌, List, [], ◌∷◌, leb, ◌==◌,
  if◌then◌else◌,
}
use lidi.Prelude.Outcome.{Outcome, ok, err, panic}
use lidi.Stream.{IoError, Writer}
use lidi.File
use lidi.File.{Error, Hasher, Config}
use lidi.File.Send.{Source, send_file_aux}

-- A file, and the connection that is made for it.
pub record Job : Type 0 where
  pub connected : Outcome IoError Writer
  pub source : Source

module _ (hasher : Hasher) (config : Config) where
  abbrev send_over : Outcome IoError Writer → Source → Option (Outcome Error (ℕ × Writer))
  send_over (ok diode) source = send_file_aux hasher config source diode
  send_over (err e) source = some (err (Error.io e))
  send_over panic source = some panic

  unfoldable pub send_file : Job → Option (Outcome Error (ℕ × Writer))
  send_file job = send_over job.connected job.source

  abbrev pub and_sent :
      Writer → Option (List Writer × Outcome Error Unit) → Option (List Writer × Outcome Error Unit)
  and_sent w none = none
  and_sent w (some (ws, result)) = some (w ∷ ws, result)

  -- The connections of the files that were sent, and how it ended: the first error stops it.
  pub send_files : List Job → Option (List Writer × Outcome Error Unit)
  send_files [] = some ([], ok tt)
  send_files (job ∷ jobs) = elim (send_file job) [
    | none ↦ none
    | some result ↦ elim result [
      | ok sent ↦ and_sent sent.1 (send_files jobs)
      | err e ↦ some ([], err e)
      | panic ↦ some ([], panic)
    ]
  ]

-- The clients that were accepted, and how the loop ended: `none` while it waits for the next one.
abbrev pub Accepted : Type 0 → Type 0
Accepted C = List C × Option (Outcome Error Unit)

abbrev pub also : {C : Type 0} → C → Accepted C → Accepted C
also c (cs, result) = (c ∷ cs, result)

-- The test at the head of the loop
abbrev enough : ℕ → ℕ → Bool
enough max_files count = not (max_files == 0) && leb max_files count

pub accept_loop : {C : Type 0} → ℕ → ℕ → List (Outcome IoError C) → Accepted C
accept_loop max_files count [] = if enough max_files count then ([], some (ok tt)) else ([], none)
accept_loop max_files count (connection ∷ connections) = elim (enough max_files count) [
  | true ↦ ([], some (ok tt))
  | false ↦ elim connection [
    | ok c ↦ also c (accept_loop max_files (count + 1) connections)
    | err e ↦ ([], some (err (Error.io e)))
    | panic ↦ ([], some panic)
  ]
]
