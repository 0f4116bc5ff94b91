-- ===== src/Programs/OneshotSend/Serves.antt =====
-- What src/bin/diode-oneshot-send.rs makes the workers do.
use lidi.Prelude.{Option, List, map}
use mathlib.Core.Option
use lidi.Protocol.RaptorQ
use lidi.Protocol.RaptorQ.{RaptorQ}
use lidi.Protocol.Block.{ClientId}
use lidi.Stream.{Reader}
use lidi.Send.Server
use lidi.Send.Server.Transfers.{Transfers}

-- The one client that a server takes gets this number.
abbrev pub numbered : ClientId → List (Option Reader) → List (Option (ClientId × Reader))
numbered id = map (Option.map (λ client. (id, client)))
