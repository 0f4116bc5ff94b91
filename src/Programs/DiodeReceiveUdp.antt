-- ===== src/Programs/DiodeReceiveUdp.antt =====
-- src/bin/diode-receive-udp.rs: the server of a receiver that sends datagrams on.
use lidi.Prelude.{ℕ, Option, none, some, List, [], if◌then◌else◌, String}
use lidi.Prelude.Outcome.{Outcome, ok, err, panic}
use lidi.Diode.{DiodeReceive}
use lidi.Tunnel.{Error}
use lidi.Tunnel.Sessions.{Config, Host, Served, receive}
use lidi.Programs
use lidi.Programs.{Exit, returned, World}
use lidi.Programs.DiodeSendUdp.{u16_max}

pub record Args : Type 0 where
  pub from_tcp : Option String
  pub from_unix : Option String
  pub to_bind : String
  pub to : String

abbrev pub config : Args → Config (DiodeReceive String)
config args = record {
  diode = record { from_tcp = args.from_tcp; from_unix = args.from_unix };
  buffer_size = u16_max;
}

abbrev exit_of : Option (Outcome Error Unit) → Option Exit
exit_of none = none
exit_of (some (ok _)) = some returned
exit_of (some (err _)) = some returned
exit_of (some panic) = some Programs.panicked

-- What was sent, and the end: `none` while a client is waited for; an error is logged.
abbrev pub ended : Option Served → Option (List (List ℕ) × Option Exit)
ended none = none
ended (some (sent, result)) = some (sent, exit_of result)

unfoldable pub main : World → Host String → Args → Option (List (List ℕ) × Option Exit)
main world host args =
    if world.has_logger
    then ended (receive host (config args) args.to_bind args.to)
    else some ([], some returned)
