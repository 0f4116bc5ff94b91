-- ===== src/Programs/DiodeSendUdp.antt =====
-- src/bin/diode-send-udp.rs: the client of a sender that sends the datagrams of a socket.
use lidi.Prelude.{ℕ, ◌-◌, ◌^◌, Option, none, some, List, if◌then◌else◌, String}
use lidi.Prelude.Outcome.{Outcome, ok, err, panic}
use lidi.Stream.{IoError, Writer}
use lidi.Diode.{DiodeSend}
use lidi.Tunnel.{Error}
use lidi.Tunnel.Sessions.{Config, send}
use lidi.Programs
use lidi.Programs.{Exit, returned, World, endpoint}

pub record Args : Type 0 where
  pub to_tcp : Option String
  pub to_unix : Option String
  pub from : String

-- `u16::MAX`
abbrev pub u16_max : ℕ
u16_max = 2 ^ 16 - 1

abbrev pub config : DiodeSend String → Config (DiodeSend String)
config diode = record { diode = diode; buffer_size = u16_max }

-- The connection, if there was one, and the end; an error is logged.
abbrev pub ended : Option Writer × Outcome Error Unit → Option Writer × Exit
ended (connection, ok _) = (connection, returned)
ended (connection, err _) = (connection, returned)
ended (connection, panic) = (connection, Programs.panicked)

module _ (world : World) (connect : DiodeSend String → Outcome IoError Writer)
    (bind : String → Outcome IoError (List (List ℕ))) where
  abbrev send_to : Args → Option (DiodeSend String) → Option Writer × Exit
  send_to args none = (none, Programs.panicked)
  send_to args (some diode) = ended (send connect bind (config diode) args.from)

  unfoldable pub main : Args → Option Writer × Exit
  main args =
      if world.has_logger
      then send_to args (endpoint args.to_tcp args.to_unix)
      else (none, returned)
