-- ===== src/Pipeline/Serves.antt =====
-- A client's stream from src/send/server.rs to src/receive/client.rs, among those of other clients.
use lidi.Protocol.Crate.{Laws}
use lidi.Protocol.RaptorQ.{RaptorQ}
use lidi.Protocol.Block.{Block}
use lidi.Send.Client
use lidi.Send.Encoding
use lidi.Send.Encoding.InOrder
use lidi.Send.Parallel
use lidi.Receive.Decode
use lidi.Receive.Dispatch
use lidi.Pipeline.Among
use lidi.Pipeline.Among.{Among}
use lidi.Receive
