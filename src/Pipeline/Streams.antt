-- ===== src/Pipeline/Streams.antt =====
-- A client's stream on the whole way from src/send/client.rs to src/receive/client.rs.
use mathlib.Core.Path.{subst}
use lidi.Prelude.{
  ℕ, ◌≤◌, ◌<◌, ◌≡◌, ◌≢◌, ap, ◌∙◌, Option, some, Bool, true, List, [], ◌++◌, map, All,
}
use lidi.Prelude.Outcome.{ok}
use lidi.Stream.{Reader}
use lidi.Stream.Laws.{Works}
use lidi.Protocol.Block.{Block, ClientId}
use lidi.Protocol.Crate.{Raptorq, Laws}
use lidi.Protocol.RaptorQ.{RaptorQ}
use lidi.Send
use lidi.Send.Client.Carries.{Transfer}
use lidi.Send.Client.Rounds.{Setting}
use lidi.Send.Client.Splits.{run-Transfer}
use lidi.Send.Udp.Stops.{marks}
use lidi.Send.Encoding
use lidi.Send.Encoding.InOrder
use lidi.Send.Encoding.InOrder.{somes}
use lidi.Receive
use lidi.Receive.Client.{Message, block, client_end}
use lidi.Receive.Client.Delivers.{holding, run-delivers}
use lidi.Receive.Decode
use lidi.Receive.Dispatch
use lidi.Receive.Dispatch.Routes.{Handed, init-IsRouted}
use lidi.Receive.Dispatch.Isolates.{run-isolates}
use lidi.Pipeline.{Usable, decoding}
use lidi.Pipeline.Wire.{Sized}
use lidi.Pipeline.Among
use lidi.Pipeline.Among.{Among, Keeps, Among-Woven}
use lidi.Receive.Dispatch.{Event}
use lidi.Pipeline.Arrives.{blocks_arrive}

module _ (capacity : ℕ → ℕ → ℕ) (q : RaptorQ) (i : ClientId) (set : Setting capacity q i) where
  -- The blocks that the sender's worker returned are a transfer of what its client sent.
  made-Transfer :
      (flush : Bool) (client : Reader) (mine : List Block)
      → All Works client.schedule
      → Send.Client.run capacity flush q i client ≡ some (mine, ok tt)
      → Transfer q i client.input mine
  made-Transfer flush client mine works e =
      let (blocks, e', t) = run-Transfer capacity flush q i set client works in
      let same : blocks ≡ mine = cc in subst (Transfer q i client.input) same t

module _ (crate : Raptorq) (laws : Laws crate) (q : RaptorQ) (mtu : ℕ) (u : Usable q mtu) where
  -- A client whose reads do not fail, whose blocks are queued among blocks of other clients, on the
  -- way of `blocks_arrive`: when neither side has work left, the dispatcher has not failed, and has
  -- handed to the workers a channel of that client, whatever the workers take and drop in between, if
  -- none of that client drops its end before the end block; the worker of this channel, with a
  -- connection that takes all, whatever else comes on it, writes exactly the bytes that the client
  -- sent and calls `client_end` with `true`.
  pub streams_arrive :
      (capacity : ℕ → ℕ → ℕ) (i : ClientId) (client : Reader) (flush flush' : Bool)
      (mine : List Block) (rest : List Message) (batch_send : Option ℕ) (encoders decoders : ℕ)
      (blocks : List Block) (e : Encoding.State crate.Packet)
      (messages : List (Option (List crate.Packet))) (d : Decode.State crate.Packet)
      (events : List Event)
      → Setting capacity q i
      → All Works client.schedule
      → Send.Client.run capacity flush q i client ≡ some (mine, ok tt)
      → Among i mine blocks
      → batch_send ≢ some 0
      → encoders ≤ 255
      → decoders ≤ 255
      → Sized q blocks
      → Encoding.Reach crate q (InOrder.fresh crate q encoders blocks) e
      → e.waiting ++ somes e.for_encoding ≡ []
      → somes messages ≡ somes e.to_send
      → marks crate batch_send messages < encoders
      → Decode.Reach crate q (decoding crate q mtu batch_send encoders decoders messages) d
      → d.for_decode ≡ []
      → d.waiting ≡ []
      → Among.messages events ≡ d.to_dispatch
      → Keeps i events
      → (s : Dispatch.State) × (h : ℕ) × (Dispatch.run capacity q Dispatch.init events ≡ ok s)
        × Handed i h s.to_clients
        × (Receive.Client.run flush' (holding []) (map block (s.channel h).sent ++ rest)
            ≡ (holding client.input, client_end true))
  streams_arrive capacity i client flush flush' mine rest batch_send encoders decoders blocks e
        messages d events set works made among h few few' sized r nothing same running r' empty idle
        heard keeps =
      let t = made-Transfer capacity q i set flush client mine works made in
      let arrived =
        blocks_arrive crate laws q mtu u batch_send encoders decoders blocks e messages d h few few'
          sized r nothing same running r' empty idle in
      let (s, c, _, ran, retired) =
        run-isolates capacity q i Dispatch.init mine events init-IsRouted
          (Among-Woven events t (heard ∙ arrived) among keeps) in
      (
        s,
        c,
        ran,
        retired.handed,
        ap (λ l. Receive.Client.run flush' (holding []) (map block l ++ rest)) retired.log
            ∙ run-delivers flush' rest t,
      )
