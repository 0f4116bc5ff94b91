-- ===== src/Examples/Receive.antt =====
-- The theorems about src/receive/ at concrete inputs.
use lidi.Prelude.{◌≤◌, ℕ, ◌≡◌, refl, some, none, true, List, [], ◌∷◌, ◌++◌, arith, All, concat}
use lidi.Prelude.Outcome.{ok}
use lidi.Protocol.Block.{start, data_block, end, Block, client_id, block_type}
use lidi.Protocol.Block.Layout.{layout}
use lidi.Protocol.Block.RoundTrip.{layout-Reads}
use lidi.Protocol.RaptorQ.{decode}
use lidi.Send.Client.Carries.{last, more, Transfer, begin}
use lidi.Send.Encoding.InOrder.{somes}
use lidi.Receive.{Reassembled, block}
use lidi.Receive.Reblock
use lidi.Receive.Reblock.{
  State, Action, set_dispatch, init, on_received, Event, timeout, drain, drain_fuel, do_reset,
}
use lidi.Receive.Reblock.Window.{do_reset-IsWindow}
use lidi.Receive.Reblock.Drain.{Drained, drain-Drained}
use lidi.Receive.Reblock.Silent.{IsQuiet, run-IsQuiet, reset-do_reset}
use lidi.Receive.Reblock.Holds.{feed}
use lidi.Receive.Reblock.Order.{emitted, run-InOrder}
use lidi.Receive.Decode
use lidi.Receive.Decode.{take, release, lost, Reach, here, next}
use lidi.Receive.Decode.Progress.{decoders_finish}
use lidi.Receive.Decode.InOrder.{fresh, dispatched, decoders_in_order, decoders_complete}
use lidi.Receive.Decode.Stall.{Losing, lost_block_stalls}
use lidi.Receive.Client
use lidi.Receive.Client.{Message, timeout, client_end, panicked}
use lidi.Receive.Client.Delivers.{holding, run-lying}
use lidi.Receive.Dispatch
use lidi.Receive.Dispatch.{message, takes, drops}
use lidi.Receive.Dispatch.Routes.{init-IsRouted}
use lidi.Receive.Dispatch.Blocks.{Retired}
use lidi.Receive.Dispatch.Isolates.{
  Woven, first, earlier, last, mine, other, stop, foreign, run-isolates, taking_on, dropping_on,
  dropping,
}
use lidi.Examples.Crate.{crate, laws}
use lidi.Examples.Protocol.{small, exact, eight_twice}

-- A transfer of client 1 with the bytes 7, 8 and 9.
abbrev first_block : Block
first_block = layout start 1 0 (0 ∷ 0 ∷ 0 ∷ 0 ∷ 0 ∷ 0 ∷ 0 ∷ [])

abbrev data_block_7 : Block
data_block_7 = layout data_block 1 2 (7 ∷ 8 ∷ 0 ∷ 0 ∷ 0 ∷ 0 ∷ 0 ∷ [])

abbrev last_block : Block
last_block = layout end 1 1 (9 ∷ 0 ∷ 0 ∷ 0 ∷ 0 ∷ 0 ∷ 0 ∷ [])

transfer : Transfer small 1 (7 ∷ 8 ∷ 9 ∷ []) (first_block ∷ data_block_7 ∷ last_block ∷ [])
transfer =
    begin first_block _
      (layout-Reads start 1 [] (0 ∷ 0 ∷ 0 ∷ 0 ∷ 0 ∷ 0 ∷ 0 ∷ []) (omega arith) (omega arith)) refl
      (more (7 ∷ 8 ∷ []) (9 ∷ []) data_block_7 _
        (layout-Reads data_block 1 (7 ∷ 8 ∷ []) (0 ∷ 0 ∷ 0 ∷ 0 ∷ 0 ∷ []) (omega arith)
          (omega arith))
        refl refl
        (last last_block
          (layout-Reads end 1 (9 ∷ []) (0 ∷ 0 ∷ 0 ∷ 0 ∷ 0 ∷ 0 ∷ []) (omega arith) (omega arith))
          refl))

run-lying_example :
    Client.run true (holding (4 ∷ [])) (Client.block (layout data_block 1 3 (5 ∷ [])) ∷ [])
    ≡ (holding (4 ∷ []), panicked)
run-lying_example =
    run-lying true (4 ∷ []) data_block 1 3 (5 ∷ []) [] (omega arith) (omega arith) (omega arith)

-- Datagrams of the blocks 255 and 0, two packets each, and a repair packet.
abbrev block_255 : List (List ℕ)
block_255 = (255 ∷ 1 ∷ []) ∷ (255 ∷ 2 ∷ []) ∷ (255 ∷ []) ∷ []

abbrev block_0 : List (List ℕ)
block_0 = (0 ∷ 3 ∷ []) ∷ (0 ∷ 4 ∷ []) ∷ []

run-InOrder_example :
    Reblock.run crate 2 (init crate.Packet) (feed (concat (block_255 ∷ block_0 ∷ [])))
    ≡ set_dispatch 255 ∷ emitted crate 2 255 (block_255 ∷ block_0 ∷ [])
run-InOrder_example =
    run-InOrder crate 2 (omega arith) 255 block_255 (block_0 ∷ []) (omega arith)
      ((refl, (refl, (refl, tt))), omega arith, ((refl, (refl, tt)), omega arith, tt))

run-IsQuiet_example :
    All IsQuiet
      (Reblock.run crate 2 (init crate.Packet) (feed block_255 ++ Event.timeout ∷ feed block_0))
run-IsQuiet_example =
    run-IsQuiet crate laws 2 (omega arith) (feed block_255 ++ Event.timeout ∷ feed block_0)

drain-Drained_example :
    (out : State ℕ × List (Action ℕ)) × (drain drain_fuel 2 (do_reset 250) ≡ some out)
    × Drained 2 (do_reset 250) out
drain-Drained_example =
    drain-Drained 2 (do_reset 250) (omega arith) (do_reset-IsWindow 250 (omega arith))
      (reset-do_reset ℕ 250)

-- Blocks 255 and 0, decoded by two threads.
abbrev packets : ℕ → List crate.Packet
packets id =
    (id, 1 ∷ 2 ∷ 3 ∷ 4 ∷ 5 ∷ 6 ∷ 7 ∷ 8 ∷ []) ∷ (id, 9 ∷ 10 ∷ 11 ∷ 12 ∷ 13 ∷ 14 ∷ 15 ∷ 16 ∷ []) ∷ []

abbrev queue : List (Reassembled crate.Packet)
queue = block 255 (packets 255) ∷ block 0 (packets 0) ∷ []

abbrev jobs : List (ℕ × Block)
jobs = (255, eight_twice) ∷ (0, eight_twice) ∷ []

decodes : (id : ℕ) → decode crate small id (packets id) ≡ some eight_twice
unfolding decode
decodes id = refl

abbrev first_taken : Decode.State crate.Packet
first_taken = record (fresh crate small 2 255 queue) {
  for_decode = block 0 (packets 0) ∷ [];
  waiting = (255, eight_twice) ∷ [];
}

Reach-first : Reach crate small (fresh crate small 2 255 queue) first_taken
Reach-first = next here (take 255 (packets 255) eight_twice _ refl (omega arith) (decodes 255) refl)

decoders_in_order_example :
    (rest : List (ℕ × Block)) × (first_taken.to_dispatch ++ dispatched crate small rest
      ≡ dispatched crate small jobs)
decoders_in_order_example =
    decoders_in_order crate small 2 255 queue jobs first_taken (omega arith) (omega arith)
      (refl, decodes 255, (refl, decodes 0, tt)) (refl, (refl, tt)) Reach-first

abbrev all_sent : Decode.State crate.Packet
all_sent = record first_taken {
  for_decode = [];
  waiting = [];
  block_to_dispatch = 1;
  to_dispatch = some eight_twice ∷ some eight_twice ∷ [];
}

Reach-all_sent : Reach crate small (fresh crate small 2 255 queue) all_sent
Reach-all_sent =
    next
      (next
        (next Reach-first (take 0 (packets 0) eight_twice [] refl (omega arith) (decodes 0) refl))
        (release [] ((0, eight_twice) ∷ []) 255 eight_twice refl refl refl))
      (release [] [] 0 eight_twice refl refl refl)

decoders_complete_example : all_sent.to_dispatch ≡ dispatched crate small jobs
decoders_complete_example =
    decoders_complete crate small 2 255 queue jobs all_sent (omega arith) (omega arith)
      (refl, decodes 255, (refl, decodes 0, tt)) (refl, (refl, tt)) Reach-all_sent refl refl

-- Block 255 with one packet, which is too few.
abbrev broken : Decode.State crate.Packet
broken = fresh crate small 2 255 (block 255 ((255, 1 ∷ []) ∷ []) ∷ block 0 (packets 0) ∷ [])

undecodable : decode crate small 255 ((255, 1 ∷ []) ∷ []) ≡ none
unfolding decode
undecodable = refl

broken-Losing : Losing crate small broken ((255, 1 ∷ []) ∷ []) (block 0 (packets 0) ∷ [])
broken-Losing = record {
  turn = omega arith;
  idle = refl;
  head = refl;
  broken = undecodable;
  follows = (refl, tt);
  few = omega arith;
}

abbrev stalled : Decode.State crate.Packet
stalled = record broken {
  for_decode = [];
  waiting = (0, eight_twice) ∷ [];
  to_dispatch = none ∷ [];
}

Reach-stalled : Reach crate small broken stalled
Reach-stalled =
    next (next here (lost 255 ((255, 1 ∷ []) ∷ []) _ refl (omega arith) undecodable refl))
      (take 0 (packets 0) eight_twice [] refl (omega arith) (decodes 0) refl)

lost_block_stalls_example : somes stalled.to_dispatch ≡ []
lost_block_stalls_example =
    lost_block_stalls crate small broken stalled ((255, 1 ∷ []) ∷ []) (block 0 (packets 0) ∷ [])
      broken-Losing Reach-stalled

-- Client 1's transfer, with an end block of client 2 and an unreadable block of client 3 in it.
abbrev end_2 : Block
end_2 = layout end 2 0 []

abbrev strange_3 : Block
strange_3 = 3 ∷ 0 ∷ 0 ∷ 0 ∷ 99 ∷ []

abbrev tail_blocks : List Block
tail_blocks = data_block_7 ∷ last_block ∷ []

-- The worker of client 1 takes a block and drops its end behind the end block; that of client 2 has
-- none.
abbrev mixed : List Dispatch.Event
mixed =
    message (some end_2)
    ∷ message (some data_block_7)
    ∷ takes 0
    ∷ message (some strange_3)
    ∷ drops 2 0
    ∷ message (some last_block)
    ∷ drops 1 0
    ∷ message (some end_2)
    ∷ []

abbrev whole : List Dispatch.Event
whole = message (some end_2) ∷ message (some first_block) ∷ mixed

mixed-Woven : Woven 1 (first_block ∷ tail_blocks) whole
unfolding block_type client_id
mixed-Woven =
    earlier end_2 2 _ _ refl (λ e. cc)
      (first first_block _ _ refl refl (
        other end_2 2 _ _ refl (λ e. omega arith) (λ e. cc)
          (mine data_block_7 _ _ refl refl (
            taking_on 0 _ _ (
              other strange_3 3 _ _ refl (λ e. omega arith) (λ e. cc)
                (dropping_on 2 0 _ _ (λ e. omega arith)
                  (last last_block _ refl refl
                    (dropping 1 0 _ (foreign end_2 2 _ refl tt (λ e. cc) stop)))))))))

run-isolates_example :
    (s' : Dispatch.State) × (h : ℕ) × (0 ≤ h)
    × (Dispatch.run exact small Dispatch.init whole ≡ ok s')
    × Retired s' 1 h (first_block ∷ tail_blocks)
run-isolates_example =
    run-isolates exact small 1 Dispatch.init (first_block ∷ tail_blocks) whole init-IsRouted
      mixed-Woven

decoders_finish_example :
    (t : Decode.State crate.Packet) × Reach crate small first_taken t
    × (t.for_decode ≡ [])
    × (t.waiting ≡ [])
    × (t.to_dispatch ≡ dispatched crate small jobs)
decoders_finish_example =
    decoders_finish crate small 2 255 queue jobs first_taken (omega arith) (omega arith)
      (omega arith) (refl, decodes 255, (refl, decodes 0, tt)) (refl, (refl, tt)) Reach-first
