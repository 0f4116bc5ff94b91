-- ===== src/Receive.antt =====
-- src/receive/: the receiver's workers, one child for each. The messages that they exchange.
pub mod Reblock
pub mod Decode
pub mod Client
pub mod Dispatch
pub mod Clients
pub mod Parallel
pub mod Receiver
use lidi.Prelude.{ℕ, List}

-- `Reassembled` of src/receive/mod.rs
pub data Reassembled (P : Type 0) : Type 0 where
  error : Reassembled P
  block : ℕ → List P → Reassembled P

-- `Datagrams` of src/udp.rs
pub data Datagrams : Type 0 where
  single : List ℕ → Datagrams
  multiple : List (List ℕ) → Datagrams
