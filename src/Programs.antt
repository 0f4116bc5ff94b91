-- ===== src/Programs.antt =====
-- The programs of src/bin/ around the library. Parsing the arguments is left to clap, logging is
-- left out, and what the system answers is a record.
pub mod OneshotSend
pub mod OneshotReceive
pub mod DiodeSend
pub mod DiodeReceive
pub mod DiodeConfig
pub mod DiodeSendFile
pub mod DiodeReceiveFile
pub mod FloodTest
pub mod Files
pub mod DiodeSendUdp
pub mod DiodeReceiveUdp
pub mod Datagrams
use lidi.Prelude.{ℕ, Option, none, some, Bool, List, String}
use lidi.Diode

-- How `main` ends: it returns (from a scope once its threads have, and once a server has taken what
-- was put on a full channel), or leaves the process with a code.
pub data Exit : Type 0 where
  returned panicked : Exit
  exit : ℕ → Exit

-- Whether the logger can be set up, what `semka::Sem::new` returns for a number of clients, the
-- cores, and how many threads can be spawned.
pub record World : Type 0 where
  pub has_logger : Bool
  pub semaphore : ℕ → Option ℕ
  pub core_ids : Option (List ℕ)
  pub limit : ℕ

-- The diode that a client's arguments name; with neither, which clap rules out, `unreachable!()`.
abbrev pub endpoint : Option String → Option String → Option (Diode.DiodeSend String)
endpoint (some to_tcp) to_unix = some (Diode.tcp to_tcp)
endpoint none (some to_unix) = some (Diode.unix to_unix)
endpoint none none = none
