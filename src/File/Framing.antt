-- ===== src/File/Framing.antt =====
-- src/aux/file/protocol.rs: the header and the footer of a file. A `String` is its bytes; `utf8`
-- stands for the check of the standard library's `String::from_utf8`. A `usize` has eight bytes.
pub mod RoundTrip
use lidi.Prelude.{ℕ, ◌^◌, Bool, List, length, leb, if◌then◌else◌}
use lidi.Prelude.Bytes.{to_le_bytes, from_le_bytes}
use lidi.Prelude.Outcome.{Outcome, ok, err, panic, ◌>>=◌, map_err}
use lidi.Stream.{Reader, Writer, write_all, read_exact}
use lidi.File
use lidi.File.{ProtocolError, string_format_error}

pub record Header : Type 0 where
  pub file_name : List ℕ
  pub mode : ℕ
  pub file_length : ℕ

abbrev put : Writer → List ℕ → Outcome ProtocolError Writer
put w bytes = map_err ProtocolError.io (write_all w bytes)

abbrev get : Reader → ℕ → Outcome ProtocolError (List ℕ × Reader)
get r n = map_err ProtocolError.io (read_exact r n)

-- `Header::serialize_to`
unfoldable pub serialize_to : Header → Writer → Outcome ProtocolError Writer
serialize_to header w = do
  w ← put w (to_le_bytes 8 (length header.file_name))
  w ← put w header.file_name
  w ← put w (to_le_bytes 4 header.mode)
  put w (to_le_bytes 8 header.file_length)

-- `vec![0; n]` panics where `n` bytes are more than a vector can have.
abbrev pub vec_limit : ℕ
vec_limit = 2 ^ 63

-- `Header::deserialize_from`
unfoldable pub deserialize_from : (List ℕ → Bool) → Reader → Outcome ProtocolError (Header × Reader)
deserialize_from utf8 r = do
  (len, r) ← get r 8
  (file_name, r) ← if leb vec_limit (from_le_bytes len) then panic else get r (from_le_bytes len)
  file_name ← if utf8 file_name then ok file_name else err string_format_error
  (mode, r) ← get r 4
  (file_length, r) ← get r 8
  ok (
    record {
      file_name = file_name;
      mode = from_le_bytes mode;
      file_length = from_le_bytes file_length;
    },
    r,
  )

-- `Footer::serialize_to` and `Footer::deserialize_from`, on the footer's one field
unfoldable pub footer_serialize_to : ℕ → Writer → Outcome ProtocolError Writer
footer_serialize_to hash w = put w (to_le_bytes 16 hash)

unfoldable pub footer_deserialize_from : Reader → Outcome ProtocolError (ℕ × Reader)
footer_deserialize_from r = do (hash, r) ← get r 16; ok (from_le_bytes hash, r)
