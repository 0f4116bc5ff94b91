-- ===== src/Programs/DiodeSendFile.antt =====
-- src/bin/diode-send-file.rs: the client of a sender that sends files. An address and a path are
-- texts; what connecting and the file system answer for a path is a `Job`.
use lidi.Prelude.{ℕ, Option, none, some, Bool, List, [], map, if◌then◌else◌, String}
use lidi.Prelude.Outcome.{Outcome, ok, err, panic}
use lidi.Stream.{Writer}
use lidi.Diode.{DiodeSend}
use lidi.File.{Hasher, Error}
use lidi.File.Listen.{Config, for_one_file}
use lidi.File.Sessions.{Job, send_files}
use lidi.Programs
use lidi.Programs.{Exit, returned, World, endpoint}

pub record Args : Type 0 where
  pub to_tcp : Option String
  pub to_unix : Option String
  pub buffer_size : ℕ
  pub hash : Bool
  pub files : List String

abbrev pub config : Args → DiodeSend String → Config (DiodeSend String)
config args diode = record {
  diode = diode;
  buffer_size = args.buffer_size;
  hash = args.hash;
  max_files = 0;
}

-- What the connections of the files that were sent hold, and the end; an error is logged.
abbrev pub ended : Option (List Writer × Outcome Error Unit) → Option (List Writer × Exit)
ended none = none
ended (some (connections, ok _)) = some (connections, returned)
ended (some (connections, err _)) = some (connections, returned)
ended (some (connections, panic)) = some (connections, Programs.panicked)

module _ (hasher : Hasher) (world : World) (job : DiodeSend String → String → Job) where
  abbrev send_to : Args → Option (DiodeSend String) → Option (List Writer × Exit)
  send_to args none = some ([], Programs.panicked)
  send_to args (some diode) =
      ended (send_files hasher (for_one_file (config args diode)) (map (job diode) args.files))

  unfoldable pub main : Args → Option (List Writer × Exit)
  main args =
      if world.has_logger
      then send_to args (endpoint args.to_tcp args.to_unix)
      else some ([], returned)
