-- ===== src/Programs/DiodeReceiveFile.antt =====
-- src/bin/diode-receive-file.rs: the server of a receiver that stores files.
use lidi.Prelude.{ℕ, Option, Bool, List, [], if◌then◌else◌, String}
use lidi.Prelude.Outcome.{ok, err, panic}
use lidi.Diode.{DiodeReceive, Listener}
use lidi.File.Listen.{Config, Host, Listening, receive_files}
use lidi.Programs
use lidi.Programs.{Exit, returned, World}

pub record Args : Type 0 where
  pub from_tcp : Option String
  pub from_unix : Option String
  pub buffer_size : ℕ
  pub hash : Bool
  pub max_files : ℕ
  pub output_directory : String

abbrev pub config : Args → Config (DiodeReceive String)
config args = record {
  diode = record { from_tcp = args.from_tcp; from_unix = args.from_unix };
  buffer_size = args.buffer_size;
  hash = args.hash;
  max_files = args.max_files;
}

-- The listeners that ran, and the end, once they have ended; an error is logged.
abbrev pub ended : Listening String → List (Listener String) × Exit
ended (listeners, ok _) = (listeners, returned)
ended (listeners, err _) = (listeners, returned)
ended (listeners, panic) = (listeners, Programs.panicked)

unfoldable pub main : World → Host String → Args → List (Listener String) × Exit
main world host args =
    if world.has_logger
    then ended (receive_files host (config args) args.output_directory)
    else ([], returned)
