-- ===== src/File/Chunks.antt =====
-- The reads of `send_file_aux` and of `receive_file` in src/aux/file/, which fill a buffer of
-- `buffer_size` bytes before they pass it on; and the hash that both ends compute. `filled` is the
-- buffer below `cursor`.
pub mod Digest
use lidi.Prelude.{
  ℕ, ◌+◌, Option, none, some, Bool, true, false, List, [], ◌∷◌, ◌++◌, length, is_empty, ltb, leb,
  if◌then◌else◌,
}
use lidi.Prelude.Outcome.{Outcome, ok, err, panic}
use lidi.Stream.{IoError, Reader, read}
use lidi.File.{Hasher}

-- What one `match … .read(…)?` comes to: more is read, or the buffer is full, with the number of
-- bytes read; or the read returned nothing.
pub data Round : Type 0 where
  again full : List ℕ → ℕ → Reader → Round
  over : Reader → Round
  stopped : Outcome IoError Unit → Round

abbrev pub on_read : ℕ → List ℕ → List ℕ → Reader → Round
on_read buffer_size filled [] r = over r
on_read buffer_size filled (x ∷ bytes) r =
    let nread = length (x ∷ bytes) in
    if ltb (length filled + nread) buffer_size
    then again (filled ++ x ∷ bytes) nread r
    else full (filled ++ x ∷ bytes) nread r

abbrev on_result : ℕ → List ℕ → Outcome IoError (List ℕ × Reader) → Round
on_result buffer_size filled (ok (bytes, r)) = on_read buffer_size filled bytes r
on_result buffer_size filled (err e) = stopped (err e)
on_result buffer_size filled panic = stopped panic

-- A read with room for `n` bytes.
unfoldable pub round : ℕ → ℕ → List ℕ → Reader → Round
round buffer_size n filled r = on_result buffer_size filled (read r n)

module _ (hasher : Hasher) where
  -- `hasher` as each end makes it, and its two uses
  abbrev pub new_hasher : Bool → Option hasher.H
  new_hasher hash = if hash then some hasher.fresh else none

  abbrev pub hash_vec : Option hasher.H → List ℕ → Option hasher.H
  hash_vec none bytes = none
  hash_vec (some h) bytes = some (hasher.hash_vec h bytes)

  -- `if 0 < cursor` at the end
  abbrev pub write : Option hasher.H → List ℕ → Option hasher.H
  write h [] = h
  write none (x ∷ bytes) = none
  write (some h) (x ∷ bytes) = some (hasher.write h (x ∷ bytes))
