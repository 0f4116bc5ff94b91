-- ===== src/Pipeline/Arrives.antt =====
-- Blocks on the whole way from src/send/encoding.rs to src/receive/dispatch.rs.
use lidi.Prelude.{
  ℕ, ◌^◌, ◌≤◌, ◌<◌, ◌≡◌, ◌≢◌, ap, sym, ◌∙◌, Option, some, List, [], ◌++◌, map, All, arith, concat,
}
use mathlib.Core.Path.{subst}
use lidi.Protocol.Block.{Block}
use lidi.Protocol.Crate.{Raptorq, Laws}
use lidi.Protocol.RaptorQ.{RaptorQ}
use lidi.Send.Udp.{Ended}
use lidi.Send.Udp.Stops.{datagrams, Short, marks, loop-running}
use lidi.Send.Encoding
use lidi.Send.Encoding.InOrder
use lidi.Send.Encoding.InOrder.{somes, coded, encoders_complete}
use lidi.Receive.Decode
use lidi.Receive.Decode.Progress.{decoders_finish}
use lidi.Receive.Decode.InOrder.{Decodes, decoders_complete}
use lidi.Turn.{numbered}
use lidi.Pipeline.{Usable, wire, to_decode, first_dispatch, reblocked, decoding}
use lidi.Pipeline.Losses.{consecutive, dispatched-numbered, queue-Decodes, serialized-Survives}
use lidi.Pipeline.Wire.{Sized, serialized, datagrams-serialized, serialized-Short}

module _ (crate : Raptorq) (laws : Laws crate) (q : RaptorQ) (mtu : ℕ) (u : Usable q mtu) where
  -- What is on the wire when the encoders have sent all blocks.
  wire-serialized :
      (batch_send : Option ℕ) (n : ℕ) (messages : List (Option (List crate.Packet)))
      (blocks : List Block)
      → batch_send ≢ some 0
      → n < 2 ^ 8
      → marks crate batch_send messages < n
      → Sized q blocks
      → somes messages ≡ coded crate q (numbered 0 blocks)
      → wire crate batch_send n messages ≡ concat (serialized crate q 0 blocks)
  unfolding wire
  wire-serialized batch_send n messages blocks h few running sized e =
      let short =
        subst (All (Short crate batch_send)) (sym e)
          (serialized-Short crate laws q mtu u batch_send 0 blocks (omega arith) sized) in
      ap (λ (ended : Ended). ended.0.wire)
        (loop-running crate batch_send n messages [] h few short running)
      ∙ (ap (datagrams crate batch_send) e
          ∙ datagrams-serialized crate laws q mtu u batch_send 0 blocks)

  decoding-Decodes :
      (batch_send : Option ℕ) (encoders decoders : ℕ) (blocks : List Block)
      (e : Encoding.State crate.Packet) (messages : List (Option (List crate.Packet)))
      → batch_send ≢ some 0
      → encoders ≤ 255
      → Sized q blocks
      → Encoding.Reach crate q (InOrder.fresh crate q encoders blocks) e
      → e.waiting ++ somes e.for_encoding ≡ []
      → somes messages ≡ somes e.to_send
      → marks crate batch_send messages < encoders
      → let s = decoding crate q mtu batch_send encoders decoders messages in
        (s.block_to_dispatch ≡ 0) × Decodes crate q s.for_decode (numbered 0 blocks)
  decoding-Decodes batch_send encoders decoders blocks e messages h few sized r nothing same
        running =
      let on_wire =
        wire-serialized batch_send encoders messages blocks h (omega arith) running sized
          (same ∙ encoders_complete crate q encoders blocks e few r nothing) in
      let (zero_first, decodes) =
        queue-Decodes crate laws q mtu u blocks (serialized crate q 0 blocks) sized
          (serialized-Survives crate laws q mtu u 0 blocks (omega arith) sized) in
      (
        ap (λ l. first_dispatch (reblocked crate q mtu l)) on_wire ∙ zero_first,
        subst (λ l. Decodes crate q (to_decode (reblocked crate q mtu l)) (numbered 0 blocks))
            (sym on_wire) decodes,
      )

  pub blocks_arrive :
      (batch_send : Option ℕ) (encoders decoders : ℕ) (blocks : List Block)
      (e : Encoding.State crate.Packet) (messages : List (Option (List crate.Packet)))
      (d : Decode.State crate.Packet)
      → batch_send ≢ some 0
      → encoders ≤ 255
      → decoders ≤ 255
      → Sized q blocks
      → Encoding.Reach crate q (InOrder.fresh crate q encoders blocks) e
      → e.waiting ++ somes e.for_encoding ≡ []
      → somes messages ≡ somes e.to_send
      → marks crate batch_send messages < encoders
      → Decode.Reach crate q (decoding crate q mtu batch_send encoders decoders messages) d
      → d.for_decode ≡ []
      → d.waiting ≡ []
      → d.to_dispatch ≡ map some blocks
  blocks_arrive batch_send encoders decoders blocks e messages d h few few' sized r nothing same
        running r' empty idle =
      let s = decoding crate q mtu batch_send encoders decoders messages in
      let (zero_first, decodes) =
        decoding-Decodes batch_send encoders decoders blocks e messages h few sized r nothing same
          running in
      decoders_complete crate q decoders s.block_to_dispatch s.for_decode (numbered 0 blocks) d few'
        (omega (arith, zero_first)) decodes (consecutive blocks zero_first) r' empty idle
      ∙ dispatched-numbered crate q 0 blocks

  pub blocks_can_arrive :
      (batch_send : Option ℕ) (encoders decoders : ℕ) (blocks : List Block)
      (e : Encoding.State crate.Packet) (messages : List (Option (List crate.Packet)))
      (d : Decode.State crate.Packet)
      → batch_send ≢ some 0
      → encoders ≤ 255
      → 0 < decoders
      → decoders ≤ 255
      → Sized q blocks
      → Encoding.Reach crate q (InOrder.fresh crate q encoders blocks) e
      → e.waiting ++ somes e.for_encoding ≡ []
      → somes messages ≡ somes e.to_send
      → marks crate batch_send messages < encoders
      → Decode.Reach crate q (decoding crate q mtu batch_send encoders decoders messages) d
      → (t : Decode.State crate.Packet) × Decode.Reach crate q d t
        × (t.for_decode ≡ [])
        × (t.waiting ≡ [])
        × (t.to_dispatch ≡ map some blocks)
  blocks_can_arrive batch_send encoders decoders blocks e messages d h few live few' sized r nothing
        same running r' =
      let s = decoding crate q mtu batch_send encoders decoders messages in
      let (zero_first, decodes) =
        decoding-Decodes batch_send encoders decoders blocks e messages h few sized r nothing same
          running in
      let (t, r'', empty, idle, all) =
        decoders_finish crate q decoders s.block_to_dispatch s.for_decode (numbered 0 blocks) d live
          few' (omega (arith, zero_first)) decodes (consecutive blocks zero_first) r' in
      (t, r'', empty, idle, all ∙ dispatched-numbered crate q 0 blocks)
