-- ===== src/File.antt =====
-- src/aux/file/: files through the diode, as a stream that its two ends frame. `Hasher` is the
-- interface of the `fasthash` crate that both ends call.
pub mod Framing
pub mod Chunks
pub mod Send
pub mod Receive
pub mod Sessions
pub mod Listen
use lidi.Prelude.{ℕ, Option, none, some, List, Bool, String}
use lidi.Stream.{IoError}

-- `file::protocol::Error` of src/aux/file/protocol.rs
pub data ProtocolError : Type 0 where
  io : IoError → ProtocolError
  string_format_error : ProtocolError
  invalid_file_size invalid_hash : ℕ → ℕ → ProtocolError

-- `file::Error` of src/aux/file/mod.rs
pub data Error : Type 0 where
  io : IoError → Error
  diode : ProtocolError → Error
  other : String → Error

-- `SpookyHasherExt`: a new one, `write` of a slice, `hash` of a vector, `finish_ext`
pub record Hasher : Type 1 where
  pub H : Type 0
  pub fresh : H
  pub write : H → List ℕ → H
  pub hash_vec : H → List ℕ → H
  pub finish_ext : H → ℕ

-- The fields of `file::Config` that the transfer of one file reads.
pub record Config : Type 0 where
  pub buffer_size : ℕ
  pub hash : Bool
