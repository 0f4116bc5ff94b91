-- ===== src/Examples/Pipeline.antt =====
-- The theorems about the joined workers at a concrete input.
use lidi.Prelude.{
  take as take_n, drop as drop_n, concat, ℕ, ◌≡◌, refl, Option, some, none, true, false, List, [],
  ◌∷◌, map, arith,
}
use lidi.Prelude.Outcome.{ok}
use lidi.Stream.{Reader, some_bytes, broken, read}
use lidi.Pipeline.Breaks.{Arrived, streams_break}
use lidi.Protocol.Block.{
  start, data_block, end, Block, client_id, block_type, new, new_with, new_empty,
}
use lidi.Protocol.Block.Layout.{layout}
use lidi.Protocol.RaptorQ.{encode, decode}
use lidi.Send
use lidi.Send.Encoding.{State, take, release, Reach, here, next}
use lidi.Send.Encoding.InOrder.{coded, fresh}
use lidi.Receive.Decode
use lidi.Turn.{numbered}
use lidi.Pipeline.{Usable, decoding, reblocked, first_dispatch, to_decode}
use lidi.Pipeline.Losses
use lidi.Pipeline.Losses.{
  kept, lost, Survives, silent, through, consecutive, queue-Decodes, losses_repaired,
}
use lidi.Receive.Decode.InOrder as Decoders
use lidi.Receive.Decode.InOrder.{Decodes}
use lidi.Receive.Decode.Progress.{decoders_finish}
use lidi.Receive.Reblock.{Action}
use lidi.Pipeline.Among.{Among, nothing, own, foreign}
use lidi.Pipeline.Arrives.{blocks_can_arrive}
use lidi.Examples.Crate.{crate, laws}
use lidi.Examples.Protocol.{small, small-IsCodable, exact}
use lidi.Examples.Send.{small-Setting}

pub small-Usable : Usable small 40
small-Usable = record {
  codable = small-IsCodable;
  some_symbol = omega arith;
  enough = omega arith;
  small = omega arith;
  fits = omega arith;
  datagram = omega arith;
}

-- Client 1 sends 7, 8 and 9; client 2 has a block of its own in between.
abbrev client : Reader
client = record { input = 7 ∷ 8 ∷ 9 ∷ []; schedule = some_bytes 2 ∷ [] }

abbrev opening : Block
opening = layout start 1 0 (0 ∷ 0 ∷ 0 ∷ 0 ∷ 0 ∷ 0 ∷ 0 ∷ [])

abbrev strange : Block
strange = layout data_block 2 1 (5 ∷ 0 ∷ 0 ∷ 0 ∷ 0 ∷ 0 ∷ 0 ∷ [])

abbrev closing : Block
closing = layout end 1 3 (7 ∷ 8 ∷ 9 ∷ 0 ∷ 0 ∷ 0 ∷ 0 ∷ [])

abbrev blocks : List Block
blocks = opening ∷ strange ∷ closing ∷ []

among : Among 1 (opening ∷ closing ∷ []) blocks
unfolding client_id block_type
among =
    own opening _ _
      (foreign strange 2 _ _ refl (λ e. omega arith) (λ e. cc) (own closing _ _ nothing))

made : Send.Client.run exact false small 1 client ≡ some (opening ∷ closing ∷ [], ok tt)
unfolding Send.Client.run Send.Client.loop Send.Client.round read new new_with new_empty
made = refl

-- Two threads: the second has its block before the first has sent, and waits.
abbrev halfway : State crate.Packet
halfway = record (fresh crate small 2 blocks) {
  for_encoding = some (2, closing) ∷ [];
  waiting = (1, strange) ∷ [];
  block_to_send = 1;
  to_send = some (encode crate small 0 opening) ∷ [];
}

abbrev coded_all : State crate.Packet
coded_all = record halfway {
  for_encoding = [];
  waiting = [];
  block_to_send = 3;
  to_send = map some (coded crate small (numbered 0 blocks));
}

Reach-halfway : Reach crate small (fresh crate small 2 blocks) halfway
Reach-halfway =
    next
      (next (next here (take 0 opening _ refl (omega arith) refl))
        (take 1 strange _ refl (omega arith) refl))
      (release [] ((1, strange) ∷ []) 0 opening refl refl refl)

Reach-coded : Reach crate small (fresh crate small 2 blocks) coded_all
Reach-coded =
    next
      (next (next Reach-halfway (take 2 closing [] refl (omega arith) refl))
        (release [] ((2, closing) ∷ []) 1 strange refl refl refl))
      (release [] [] 2 closing refl refl refl)

-- The end mark overtakes the last block.
abbrev messages : List (Option (List crate.Packet))
messages =
    some (encode crate small 0 opening)
    ∷ some (encode crate small 1 strange)
    ∷ none
    ∷ some (encode crate small 2 closing)
    ∷ []

abbrev first : Decode.State crate.Packet
first = decoding crate small 40 (some 3) 2 4 messages

finished :
    (t : Decode.State crate.Packet) × Decode.Reach crate small first t
    × (t.for_decode ≡ [])
    × (t.waiting ≡ [])
    × (t.to_dispatch ≡ map some blocks)
finished =
    blocks_can_arrive crate laws small 40 small-Usable (some 3) 2 4 blocks coded_all messages first
      (λ e. cc) (omega arith) (omega arith) (omega arith) (refl, (refl, (refl, tt))) Reach-coded
      refl refl (omega arith) Decode.here

abbrev last : Decode.State crate.Packet
last = finished.0

-- A client whose second read fails.
abbrev breaking : Reader
breaking = record { input = 7 ∷ 8 ∷ 9 ∷ []; schedule = some_bytes 2 ∷ broken ∷ [] }

streams_break_example :
    Arrived exact true false small 2 1 small-Setting breaking (some (2, client) ∷ []) []
streams_break_example =
    streams_break exact true false small 2 1 small-Setting breaking (some (2, client) ∷ []) []

-- The repair packet of the first block is lost.
abbrev got : List (List (List ℕ))
got =
    ((0 ∷ take_n 8 opening) ∷ (0 ∷ drop_n 8 opening) ∷ [])
    ∷ ((1 ∷ take_n 8 strange) ∷ (1 ∷ drop_n 8 strange) ∷ (1 ∷ []) ∷ [])
    ∷ []

survived : Survives crate small 0 (opening ∷ strange ∷ []) got
unfolding encode decode
survived =
    through 0 opening _ _ _ (kept _ _ _ (kept _ _ _ (lost _ _ _ Losses.nothing))) (omega arith) refl
      (through 1 strange _ _ _ (kept _ _ _ (kept _ _ _ (kept _ _ _ Losses.nothing))) (omega arith)
        refl (silent 2))

abbrev actions : List (Action crate.Packet)
actions = reblocked crate small 40 (concat got)

queued :
    (first_dispatch actions ≡ 0)
    × Decodes crate small (to_decode actions) (numbered 0 (opening ∷ strange ∷ []))
queued =
    queue-Decodes crate laws small 40 small-Usable (opening ∷ strange ∷ []) got (refl, (refl, tt))
      survived

lossy :
    (t : Decode.State crate.Packet) × Decode.Reach crate small
      (Decoders.fresh crate small 3 (first_dispatch actions) (to_decode actions))
      t
    × (t.for_decode ≡ [])
    × (t.waiting ≡ [])
    × (t.to_dispatch ≡ Decoders.dispatched crate small (numbered 0 (opening ∷ strange ∷ [])))
lossy =
    decoders_finish crate small 3 (first_dispatch actions) (to_decode actions)
      (numbered 0 (opening ∷ strange ∷ [])) _ (omega arith) (omega arith) (omega (arith, queued.0))
      queued.1 (consecutive (opening ∷ strange ∷ []) queued.0) Decode.here

losses_repaired_example : lossy.0.to_dispatch ≡ some opening ∷ some strange ∷ []
losses_repaired_example =
    losses_repaired crate laws small 40 small-Usable 3 (opening ∷ strange ∷ []) got lossy.0
      (omega arith) (refl, (refl, tt)) survived lossy.1 lossy.2 lossy.3
