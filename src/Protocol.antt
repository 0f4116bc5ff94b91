-- ===== src/Protocol.antt =====
-- src/protocol.rs: what the diode's two ends agree on. The error type; the children model the
-- RaptorQ crate's interface, the `RaptorQ` parameters and the protocol blocks.
pub mod Crate
pub mod RaptorQ
pub mod Block
use Prim.Native.String.{String}
use lidi.Prelude.{ℕ, Option}

-- `other` keeps the label that the source puts before the cause.
pub data Error : Type 0 where
  io : Error
  invalid_block_type : Option ℕ → Error
  other : String → Error
