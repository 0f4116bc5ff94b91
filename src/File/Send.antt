-- ===== src/File/Send.antt =====
-- `send_file_aux` of src/aux/file/send.rs. What the file system says of the path is a record: whether
-- it is a file, what opening it and its metadata return, and its name (none where it has none, or
-- is not valid text).
mod Rounds
pub mod Streams
use lidi.Prelude.{
  ℕ, zero, suc, ◌+◌, ◌-◌, Option, none, some, Bool, true, false, List, [], ◌∷◌, ◌++◌, length,
  is_empty, if◌then◌else◌,
}
use lidi.Prelude.Outcome.{Outcome, ok, err, panic, ◌>>=◌, map_err}
use lidi.Stream
use lidi.Stream.{IoError, Reader, Writer, write_all}
use lidi.File
use lidi.File.{Error, diode, other, Hasher, Config}
use lidi.File.Framing.{Header, serialize_to, footer_serialize_to}
use lidi.File.Chunks.{Round, again, full, over, stopped, round, new_hasher, hash_vec, write}

pub record Source : Type 0 where
  pub is_file : Bool
  pub opened : Outcome IoError Reader
  pub file_name : Option (Option (List ℕ))
  -- the mode and the length
  pub metadata : Outcome IoError (ℕ × ℕ)

abbrev name_of : Option (Option (List ℕ)) → Outcome Error (List ℕ)
name_of none = err (other "unwrap of file_name failed")
name_of (some none) = err (other "conversion from OsString to String failed")
name_of (some (some name)) = ok name

module _ (hasher : Hasher) (config : Config) where
  abbrev pub footer_hash : Option hasher.H → ℕ
  footer_hash none = 0
  footer_hash (some h) = hasher.finish_ext h

  -- The branch of a read that returns nothing.
  unfoldable pub finish : List ℕ → Option hasher.H → ℕ → Writer → Outcome Error (ℕ × Writer)
  finish filled h total w = do
    w ← if is_empty filled then ok w else map_err Error.io (write_all w filled)
    w ← map_err diode (footer_serialize_to (footer_hash (write hasher h filled)) w)
    w ← map_err Error.io (Stream.flush w)
    ok (total + length filled, w)

  -- The loop; `none` means that the fuel ran out.
  pub loop :
      ℕ → List ℕ → Reader → Option hasher.H → ℕ → Writer → Option (Outcome Error (ℕ × Writer))
  loop zero filled file h total w = none
  loop (suc fuel) filled file h total w =
      elim (round config.buffer_size (config.buffer_size - length filled) filled file) [
        | again filled' nread file' ↦ loop fuel filled' file' h total w
        | full buffer nread file' ↦ elim (write_all w buffer) [
          | ok w' ↦ loop fuel [] file' (hash_vec hasher h buffer) (total + config.buffer_size) w'
          | err e ↦ some (err (Error.io e))
          | panic ↦ some panic
        ]
        | over file' ↦ some (finish filled h total w)
        | stopped result ↦ elim result [
          | ok _ ↦ some panic
          | err e ↦ some (err (Error.io e))
          | panic ↦ some panic
        ]
      ]

  -- What comes before the loop.
  abbrev pub before_loop : Source → Writer → Outcome Error (Reader × Writer)
  before_loop source w = do
    file ← if source.is_file then map_err Error.io source.opened else err (other "not a file")
    file_name ← name_of source.file_name
    (mode, len) ← map_err Error.io source.metadata
    w ←
        map_err diode
          (serialize_to (record { file_name = file_name; mode = mode; file_length = len }) w)
    ok (file, w)

  abbrev pub then_loop : Outcome Error (Reader × Writer) → Option (Outcome Error (ℕ × Writer))
  then_loop (ok (file, w)) =
      loop (suc (length file.input)) [] file (new_hasher hasher config.hash) 0 w
  then_loop (err e) = some (err e)
  then_loop panic = some panic

  -- Every round but the last reads a byte, so one round more than bytes is enough.
  unfoldable pub send_file_aux : Source → Writer → Option (Outcome Error (ℕ × Writer))
  unfolding loop
  send_file_aux source diode' = then_loop (before_loop source diode')
