-- ===== src/Receive/Reblock/Holds.antt =====
-- The packets of one block that src/receive/reblock.rs holds, one datagram at a time.
use mathlib.Core.Path.{subst}
use lidi.Prelude.{
  ℕ, ◌≤◌, ◌<◌, ◌≡◌, ◌≢◌, refl, true, false, List, [], ◌∷◌, ◌++◌, arith, map, ap, sym, ◌∙◌, All,
  length, some,
}
use lidi.Protocol.Crate.{Raptorq}
use lidi.Receive.{block, single}
use lidi.Receive.Reblock.{
  State, send, Event, received, wrapping_add, current, before, take_block, do_reset, drain,
  drain_fuel, push, push_all, number, finish, and_then, run, step,
}
use lidi.Receive.Reblock.Window.{
  IsWindow, do_reset-IsWindow, push-IsWindow, frame-push, push-ignored, blocks_data-push,
  advance-IsWindow,
}
use lidi.Receive.Reblock.Drain.{advance, drain-stop, drain-take}
use lidi.Receive.Reblock.Silent.{on_received-synced}

-- A state in step with the sender at block `cur`, that holds `packets` of it and nothing else.
pub record Holding {P : Type 0} (s : State P) (cur : ℕ) (packets : List P) : Type 0 where
  valid : IsWindow s
  pub synced : s.reset ≡ false
  at : s.cur_id ≡ cur
  own : s.blocks_data cur ≡ packets
  rest : (id : ℕ) → id ≢ cur → s.blocks_data id ≡ []

abbrev pub feed : List (List ℕ) → List Event
feed = map (λ datagram. received (single datagram))

module _ (crate : Raptorq) (n : ℕ) where
  abbrev pub Numbered : ℕ → List (List ℕ) → Type 0
  Numbered id = All (λ datagram. number crate datagram ≡ id)

  abbrev pub packets_of : List (List ℕ) → List crate.Packet
  packets_of = map crate.deserialize

module _ (crate : Raptorq) (n : ℕ) (hn : 0 < n) where
  -- A packet of the current block is kept.
  pub push-Holding :
      (s : State crate.Packet) (cur : ℕ) (packets : List crate.Packet) (datagram : List ℕ)
      → Holding s cur packets
      → number crate datagram ≡ cur
      → Holding (push crate s datagram) cur (packets ++ crate.deserialize datagram ∷ [])
  push-Holding s cur packets datagram h e =
      let (same_id, same_ignore, same_reset) = frame-push crate s datagram in
      let kept : s.blocks_ignore (number crate datagram) ≡ false =
        ground (arith, h.valid.window h.synced (number crate datagram), h.valid.current, h.at) in
      record {
        valid = push-IsWindow crate datagram h.valid;
        synced = same_reset ∙ h.synced;
        at = same_id ∙ h.at;
        own = ground (arith, blocks_data-push crate s datagram kept cur, h.own);
        rest = λ id ne. ground (arith, blocks_data-push crate s datagram kept id, h.rest id);
      }

  -- One datagram, before the last loop of the round.
  pub run-single :
      (s : State crate.Packet) (datagram : List ℕ) (events : List Event)
      → s.reset ≡ false
      → run crate n s (received (single datagram) ∷ events)
        ≡ and_then crate
            (finish crate [] (drain drain_fuel n (push crate s datagram)))
            (λ s'. run crate n s' events)
  unfolding run step push_all
  run-single s datagram events h =
      ap (λ r. and_then crate r (λ s'. run crate n s' events))
        (on_received-synced crate n s datagram [] h)

  pub run-short :
      (s : State crate.Packet) (datagram : List ℕ) (events : List Event) (cur : ℕ)
      (packets : List crate.Packet)
      → s.reset ≡ false
      → Holding (push crate s datagram) cur packets
      → length packets < n
      → run crate n s (received (single datagram) ∷ events)
        ≡ run crate n (push crate s datagram) events
  run-short s datagram events cur packets synced h less =
      run-single s datagram events synced
      ∙ ap (λ r. and_then crate (finish crate [] r) (λ s'. run crate n s' events))
          (drain-stop 127 n (push crate s datagram) (rw (h.at, h.own) less))

  pub Holding-advance :
      (s : State crate.Packet) (cur : ℕ) (packets : List crate.Packet)
      → Holding s cur packets
      → Holding (advance s) (wrapping_add cur 1) []
  unfolding take_block
  Holding-advance s cur packets h = record {
    valid = advance-IsWindow h.valid h.synced;
    synced = h.synced;
    at = ap (λ id. wrapping_add id 1) h.at;
    own = ground (arith, h.rest (wrapping_add cur 1), h.at);
    rest = λ id ne. ground (arith, h.rest id, h.at);
  }

  pub run-full :
      (s : State crate.Packet) (datagram : List ℕ) (events : List Event) (cur : ℕ)
      (packets : List crate.Packet)
      → s.reset ≡ false
      → Holding (push crate s datagram) cur packets
      → n ≤ length packets
      → run crate n s (received (single datagram) ∷ events)
        ≡ send (block cur packets) ∷ run crate n (advance (push crate s datagram)) events
  run-full s datagram events cur packets synced h enough =
      run-single s datagram events synced
      ∙ ap (λ r. and_then crate (finish crate [] r) (λ s'. run crate n s' events)) drained
    where
      t : State crate.Packet
      t = push crate s datagram

      next : Holding (advance t) (wrapping_add cur 1) []
      next = Holding-advance t cur packets h

      emitted : current t ≡ send (block cur packets)
      emitted = ap send (rw h.at (rw h.own))

      drained : drain drain_fuel n t ≡ some (advance t, send (block cur packets) ∷ [])
      drained =
          drain-take 127 n h.valid h.synced (rw (h.at, h.own) enough)
          ∙ ap (before (current t)) (drain-stop 126 n (advance t) (rw (next.at, next.own) hn))
          ∙ ap (λ a. some (advance t, a ∷ [])) emitted

  -- A packet of the block that was just emitted changes nothing.
  run-late :
      (s : State crate.Packet) (datagram : List ℕ) (events : List Event) (cur : ℕ)
      → Holding s (wrapping_add cur 1) []
      → cur < 256
      → number crate datagram ≡ cur
      → run crate n s (received (single datagram) ∷ events) ≡ run crate n s events
  run-late s datagram events cur h hc e =
      let dropped : s.blocks_ignore (number crate datagram) ≡ true =
        ground (arith, h.valid.window h.synced (number crate datagram), h.at) in
      let same = push-ignored crate s datagram dropped in
      run-short s datagram events (wrapping_add cur 1) [] h.synced
        (subst (λ t. Holding t (wrapping_add cur 1) []) (sym same) h) hn
      ∙ ap (λ t. run crate n t events) same

  pub run-late_all :
      (s : State crate.Packet) (datagrams : List (List ℕ)) (events : List Event) (cur : ℕ)
      → Holding s (wrapping_add cur 1) []
      → cur < 256
      → Numbered crate n cur datagrams
      → run crate n s (feed datagrams ++ events) ≡ run crate n s events
  run-late_all s [] events cur h hc num = refl
  run-late_all s (datagram ∷ datagrams) events cur h hc num =
      run-late s datagram (feed datagrams ++ events) cur h hc num.0
      ∙ run-late_all s datagrams events cur h hc num.1

  pub Holding-do_reset : (id : ℕ) → id < 256 → Holding (do_reset {P = crate.Packet} id) id []
  unfolding do_reset
  Holding-do_reset id h = record {
    valid = do_reset-IsWindow id h;
    synced = refl;
    at = refl;
    own = refl;
    rest = λ j ne. refl;
  }
