-- ===== src/Bindings/Reports.antt =====
-- A file from one end to the other through diode-file-bindings/src/lib.rs.
use lidi.Prelude.{ℕ, false}
use lidi.Diode.{DiodeSend, tcp}
use lidi.File.Listen.{Config}

-- What `diode_new_config` makes for an address.
abbrev pub made : {Addr : Type 0} → Addr → ℕ → Config (DiodeSend Addr)
made addr buffer_size = record {
  diode = tcp addr;
  buffer_size = buffer_size;
  hash = false;
  max_files = 0;
}
