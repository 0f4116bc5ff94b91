-- ===== src/Bindings.antt =====
-- diode-file-bindings/src/lib.rs: sending and receiving files from C. A pointer is `none` where it is
-- null, a C string is its text; what the file system and the network do for a path is a `Job`.
pub mod Reports
use lidi.Prelude.{ℕ, ◌^◌, Option, none, some, Bool, false, String, ltb, if◌then◌else◌}
use lidi.Prelude.Outcome.{Outcome, ok, err, panic, ◌>>=◌}
use lidi.Stream.{Writer}
use lidi.File
use lidi.File.{Hasher, Error}
use lidi.Diode.{DiodeSend, tcp, unix, DiodeReceive}
use lidi.File.Listen.{Config, for_one_file}
use lidi.File.Sessions.{Job, send_file}

-- `unwrap_or(0)`, then `u32::try_from` with `unwrap_or(0)`; the connection is what was written.
abbrev reported : Option (Outcome Error (ℕ × Writer)) → Outcome (Unit {0}) (ℕ × Option Writer)
reported none = panic
reported (some (ok (n, w))) = ok (if ltb n (2 ^ 32) then n else 0, some w)
reported (some (err e)) = ok (0, none)
reported (some panic) = panic

module _ {Addr : Type 0} where
  -- `SocketAddr::from_str` with `expect`
  abbrev parsed : ℕ → Option Addr → Outcome (Unit {0}) (Option (Config (DiodeSend Addr)))
  parsed buffer_size none = panic
  parsed buffer_size (some addr) =
      ok
        (some (record { diode = tcp addr; buffer_size = buffer_size; hash = false; max_files = 0 }))

  unfoldable pub diode_new_config :
      (String → Option Addr)
      → Option String
      → ℕ
      → Outcome (Unit {0}) (Option (Config (DiodeSend Addr)))
  diode_new_config from_str none buffer_size = ok none
  diode_new_config from_str (some addr) buffer_size = parsed buffer_size (from_str addr)

  unfoldable pub diode_send_file :
      Hasher
      → (DiodeSend Addr → String → Job)
      → Option (Config (DiodeSend Addr))
      → Option String
      → Outcome (Unit {0}) (ℕ × Option Writer)
  diode_send_file hasher job none path = ok (0, none)
  diode_send_file hasher job (some c) none = ok (0, none)
  diode_send_file hasher job (some c) (some path) =
      reported (send_file hasher (for_one_file c) (job c.diode path))

  -- The call of `receive_files`, if there is one.
  abbrev receiving :
      Config (DiodeSend Addr)
      → DiodeSend Addr
      → Option String
      → Option (Config (DiodeReceive Addr) × String)
  receiving c (unix path) odir = none
  receiving c (tcp addr) none = none
  receiving c (tcp addr) (some odir) = some (
    record {
      diode = record { from_tcp = some addr; from_unix = none };
      buffer_size = c.buffer_size;
      hash = false;
      max_files = 0;
    },
    odir,
  )

  unfoldable pub diode_receive_files :
      Option (Config (DiodeSend Addr))
      → Option String
      → Option (Config (DiodeReceive Addr) × String)
  diode_receive_files none odir = none
  diode_receive_files (some c) odir = receiving c c.diode odir
