-- ===== src/Examples/Servers.antt =====
-- The theorem about servers side by side at a concrete input.
use lidi.Prelude.{Option, List, map, ◌^◌, ◌<◌, ◌≡◌, refl, inr, some, none, false, [], ◌∷◌, arith}
use lidi.Prelude.Outcome.{ok}
use lidi.Stream.{Reader, some_bytes, read}
use lidi.Protocol.Block.{start, end, heartbeat, Block, ClientId, new, new_with, new_empty}
use lidi.Protocol.Block.Layout.{layout}
use lidi.Send.Client.{run, loop, round}
use lidi.Send.Client.Rounds.{Setting}
use lidi.Send.Parallel.{State, admitted, Reach, here, next, take, admit, put, signal, beat, fresh}
use lidi.Pipeline.Among.{Among}
use lidi.Turn.{numbered}
use lidi.Send.Encoding
use lidi.Send.Encoding.InOrder
use lidi.Send.Encoding.InOrder.{coded}
use lidi.Receive
use lidi.Receive.Decode
use lidi.Receive.Dispatch
use lidi.Receive.Dispatch.{Event, message, takes, drops}
use lidi.Pipeline.{decoding}
use lidi.Examples.Crate.{crate}
use lidi.Pipeline.Servers.{servers-Among}
use lidi.Examples.Protocol.{small, exact}

-- Each of two clients sends three bytes to a server of its own.
abbrev client : Reader
client = record { input = 7 ∷ 8 ∷ 9 ∷ []; schedule = some_bytes 2 ∷ [] }

abbrev opening : ClientId → Block
opening id = layout start id 0 (0 ∷ 0 ∷ 0 ∷ 0 ∷ 0 ∷ 0 ∷ 0 ∷ [])

abbrev closing : ClientId → Block
closing id = layout end id 3 (7 ∷ 8 ∷ 9 ∷ 0 ∷ 0 ∷ 0 ∷ 0 ∷ [])

abbrev alive : Block
alive = layout heartbeat 0 0 (0 ∷ 0 ∷ 0 ∷ 0 ∷ 0 ∷ 0 ∷ 0 ∷ [])

first_made : run exact false small 0 client ≡ some (opening 0 ∷ closing 0 ∷ [], ok tt)
unfolding run loop round read new new_with new_empty
first_made = refl

second_made : run exact false small 1 client ≡ some (opening 1 ∷ closing 1 ∷ [], ok tt)
unfolding run loop round read new new_with new_empty
second_made = refl

alive_made : new exact heartbeat small 0 none ≡ ok alive
unfolding new new_with new_empty
alive_made = refl

clients_Setting : (id : ClientId) → id < 2 ^ 32 → Setting exact small id
clients_Setting id known = record {
  room = omega arith;
  small = omega arith;
  known = known;
  exact = λ len h. omega arith;
}

-- Both are taken, and the first is served.
abbrev before : State
before = record (fresh 2 (some client ∷ some client ∷ [])) {
  for_server = [];
  waiting = client ∷ [];
  serving = record { id = 0; left = opening 0 ∷ closing 0 ∷ []; failed = false } ∷ [];
  idle = 0;
  permits = 1;
  counter = 1;
}

-- The second has come and gone, while the first has queued its first block.
abbrev after : State
after = record before {
  waiting = [];
  serving = record { id = 0; left = closing 0 ∷ []; failed = false } ∷ [];
  idle = 1;
  permits = 1;
  counter = 2;
  to_ordering = some (opening 1) ∷ some (opening 0) ∷ some alive ∷ some (closing 1) ∷ [];
}

Reach-before : Reach exact false small 2 (some 5) (fresh 2 (some client ∷ some client ∷ [])) before
Reach-before =
    next (next (next here (take client _ 1 refl refl refl)) (take client [] 0 refl refl refl))
      (admit [] (client ∷ []) client 1 _ refl refl first_made refl)

Reach-after :
    Reach exact false small 2
      (some 5)
      (admitted before [] 0 (opening 1 ∷ closing 1 ∷ []) false)
      after
Reach-after =
    next
      (next
        (next
          (next
            (next here (
              put (record { id = 0; left = opening 0 ∷ closing 0 ∷ []; failed = false } ∷ []) []
                (record { id = 1; left = opening 1 ∷ closing 1 ∷ []; failed = false }) (opening 1)
                (closing 1 ∷ []) refl refl refl))
            (put [] (record { id = 1; left = closing 1 ∷ []; failed = false } ∷ [])
              (record { id = 0; left = opening 0 ∷ closing 0 ∷ []; failed = false }) (opening 0)
              (closing 0 ∷ []) refl refl refl))
          (beat 5 alive refl alive_made refl))
        (put (record { id = 0; left = closing 0 ∷ []; failed = false } ∷ []) []
          (record { id = 1; left = closing 1 ∷ []; failed = false }) (closing 1) [] refl refl refl))
      (signal (record { id = 0; left = closing 0 ∷ []; failed = false } ∷ []) []
        (record { id = 1; left = []; failed = false }) refl refl refl refl)

servers-Among_example :
    Among 1 (opening 1 ∷ closing 1 ∷ []) (opening 1 ∷ opening 0 ∷ alive ∷ closing 1 ∷ [])
servers-Among_example =
    servers-Among exact false small 2 (some 5) clients_Setting 1 (inr (λ e. omega (arith, e))) 2
      (some client ∷ some client ∷ []) before after [] [] client 0 (opening 1 ∷ closing 1 ∷ [])
      (omega arith) Reach-before refl refl refl second_made Reach-after
      ((λ e. omega (arith, e)), tt)

abbrev blocks : List Block
blocks = opening 1 ∷ opening 0 ∷ alive ∷ closing 1 ∷ []

-- The encoders, one after another.
abbrev coded_all : Encoding.State crate.Packet
coded_all = record (InOrder.fresh crate small 2 blocks) {
  for_encoding = [];
  block_to_send = 4;
  to_send = map some (coded crate small (numbered 0 blocks));
}

abbrev messages : List (Option (List crate.Packet))
messages = map some (coded crate small (numbered 0 blocks))

abbrev first : Decode.State crate.Packet
first = decoding crate small 40 (some 3) 2 4 messages

-- The worker of client 0 drops its end early, and that of client 1 when it is done.
abbrev events : List Event
events =
    message (some (opening 1))
    ∷ takes 0
    ∷ message (some (opening 0))
    ∷ message (some alive)
    ∷ drops 0 1
    ∷ message (some (closing 1))
    ∷ drops 1 0
    ∷ []
