-- ===== src/Examples/Bindings.antt =====
-- The theorems about diode-file-bindings at concrete inputs.
use lidi.Prelude.{ℕ, refl, [], String}
use lidi.Prelude.Outcome.{ok}
use lidi.File.Framing.RoundTrip.{holding}
use lidi.File.Sessions.{Job}
use lidi.File.Sessions.Counts.{Sendable}
use lidi.Diode.{DiodeSend, tcp}
use lidi.File.Listen.{for_one_file}
use lidi.Bindings
use lidi.Bindings.Reports.{made}
use lidi.Examples.Framed.{adder, source, file, header}

-- Addresses are numbers; every path is the one file.
abbrev job : DiodeSend ℕ → String → Job
job diode path = record { connected = ok (holding []); source = source }

abbrev sendable : Sendable adder (for_one_file (made {Addr = ℕ} 5001 3))
sendable = record {
  job = job (tcp 5001) "a";
  file = file;
  header = header;
  connected = refl;
  readable = record {
    is_file = refl;
    opened = refl;
    named = refl;
    described = refl;
    works = (tt, tt);
  };
}
