-- ===== src/File/Receive.antt =====
-- `receive_file` of src/aux/file/receive.rs. The directory is a record: the name that the path of the
-- header ends in (none where it has none), whether a file of that name exists, and what creating
-- it and setting its mode return. A `usize` has 64 bits.
pub mod Rounds
pub mod Delivers
use lidi.Prelude.{
  ℕ, zero, suc, ◌+◌, ◌-◌, Option, none, some, Bool, true, false, not, List, [], ◌∷◌, ◌++◌, length,
  is_empty, leb, ◌==◌, if◌then◌else◌,
}
use lidi.Prelude.Outcome.{Outcome, ok, err, panic, ◌>>=◌, map_err}
use lidi.Stream
use lidi.Stream.{IoError, Reader, Writer, write_all}
use lidi.File
use lidi.File.{Error, diode, other, invalid_file_size, invalid_hash, Hasher, Config}
use lidi.File.Framing.{Header, deserialize_from, footer_deserialize_from}
use lidi.File.Chunks.{Round, again, full, over, stopped, round, new_hasher, hash_vec, write}

pub record Directory : Type 0 where
  pub base_name : List ℕ → Option (List ℕ)
  pub exists : List ℕ → Bool
  pub create : List ℕ → Outcome IoError Writer
  pub set_permissions : ℕ → Outcome IoError Unit

abbrev name_of : Option (List ℕ) → Outcome Error (List ℕ)
name_of none = err (other "unwrap of file_name failed")
name_of (some name) = ok name

module _ (hasher : Hasher) (config : Config) where
  -- The last test: what was received, unless the hashes differ.
  abbrev pub check : ℕ → Option hasher.H → ℕ → Writer → Outcome Error (ℕ × Writer)
  check hash none received file = ok (received, file)
  check hash (some h) received file =
      if hash == hasher.finish_ext h
      then ok (received, file)
      else err (diode (invalid_hash (hasher.finish_ext h) hash))

  -- The tests behind the footer.
  abbrev check_size : ℕ → ℕ → ℕ → Option hasher.H → Writer → Outcome Error (ℕ × Writer)
  check_size file_length remaining hash h file =
      if remaining == 0
      then check hash h (file_length - remaining) file
      else err (diode (invalid_file_size file_length (file_length - remaining)))

  -- The branch of a read that returns nothing.
  unfoldable pub finish :
      ℕ → ℕ → List ℕ → Reader → Option hasher.H → Writer → Outcome Error (ℕ × Writer)
  finish file_length remaining filled client h file = do
    file ← if is_empty filled then ok file else map_err Error.io (write_all file filled)
    file ← map_err Error.io (Stream.flush file)
    (hash, client) ← map_err diode (footer_deserialize_from client)
    check_size file_length remaining hash (write hasher h filled) file

  -- `end - cursor`
  abbrev pub room : ℕ → List ℕ → ℕ
  room remaining filled =
      if leb (config.buffer_size - length filled) remaining
      then config.buffer_size - length filled
      else remaining

  -- The loop; `none` means that the fuel ran out.
  pub loop :
      ℕ → ℕ → ℕ → List ℕ → Reader → Option hasher.H → Writer → Option (Outcome Error (ℕ × Writer))
  loop file_length zero remaining filled client h file = none
  loop file_length (suc fuel) remaining filled client h file =
      elim (round config.buffer_size (room remaining filled) filled client) [
        | again filled' nread client' ↦
            loop file_length fuel (remaining - nread) filled' client' h file
        | full buffer nread client' ↦ elim (write_all file buffer) [
          | ok file' ↦
              loop file_length fuel (remaining - nread) [] client' (hash_vec hasher h buffer) file'
          | err e ↦ some (err (Error.io e))
          | panic ↦ some panic
        ]
        | over client' ↦ some (finish file_length remaining filled client' h file)
        | stopped result ↦ elim result [
          | ok _ ↦ some panic
          | err e ↦ some (err (Error.io e))
          | panic ↦ some panic
        ]
      ]

  -- What comes before the loop.
  abbrev pub before_loop :
      (List ℕ → Bool) → Directory → Reader → Outcome Error (Header × Reader × Writer)
  before_loop utf8 directory client = do
    (header, client) ← map_err diode (deserialize_from utf8 client)
    name ← name_of (directory.base_name header.file_name)
    file ←
        if directory.exists name
        then err (other "file already exists")
        else map_err Error.io (directory.create name)
    _ ← map_err Error.io (directory.set_permissions header.mode)
    ok (header, client, file)

  abbrev pub then_loop :
      Outcome Error (Header × Reader × Writer) → Option (Outcome Error (ℕ × Writer))
  then_loop (ok (header, client, file)) =
      loop header.file_length (suc (length client.input)) header.file_length [] client
        (new_hasher hasher config.hash) file
  then_loop (err e) = some (err e)
  then_loop panic = some panic

  -- Every round but the last reads a byte, so one round more than bytes is enough.
  unfoldable pub receive_file :
      (List ℕ → Bool) → Directory → Reader → Option (Outcome Error (ℕ × Writer))
  unfolding loop
  receive_file utf8 directory client = then_loop (before_loop utf8 directory client)
