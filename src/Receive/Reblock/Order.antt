-- ===== src/Receive/Reblock/Order.antt =====
-- Packets that arrive in the order of their blocks, one datagram at a time, through
-- src/receive/reblock.rs.

use mathlib.Core.List.{map-append}
use native.Mathlib.Decide.{dec_lt}
use lidi.Prelude.{
  ℕ, ◌+◌, ◌≤◌, ◌<◌, ◌≡◌, refl, List, [], ◌∷◌, ◌++◌, arith, append_assoc, ap, sym, ◌∙◌, length, take,
  some, Option, length-append, take-append_length, concat, none,
}
use lidi.Protocol.Crate.{Raptorq}
use lidi.Receive.{block, single}
use lidi.Receive.Reblock.{
  State, init, Action, send, set_dispatch, Event, received, wrapping_add, do_reset, push, push_all,
  number, finish, and_then, run, step,
}
use lidi.Receive.Reblock.Window.{do_reset-IsWindow, push-IsWindow, frame-push}
use lidi.Receive.Reblock.Drain.{advance, drain-Drained}
use lidi.Receive.Reblock.Silent.{on_received-reset, reset-do_reset}
use lidi.Receive.Reblock.Holds.{
  Holding, feed, Numbered, packets_of, push-Holding, run-single, run-short, run-full,
  Holding-advance, run-late_all, Holding-do_reset,
}

module _ (crate : Raptorq) (n : ℕ) where
  -- Blocks with consecutive numbers from `id` on, each of `n` packets at least.
  abbrev pub InOrder : ℕ → List (List (List ℕ)) → Type 0
  InOrder id [] = Unit
  InOrder id (datagrams ∷ blocks) =
      Numbered crate n id datagrams × (n ≤ length datagrams) × InOrder (wrapping_add id 1) blocks

  -- Each block with its first `n` packets.
  abbrev pub emitted : ℕ → List (List (List ℕ)) → List (Action crate.Packet)
  emitted id [] = []
  emitted id (datagrams ∷ blocks) =
      send (block id (take n (packets_of crate n datagrams))) ∷ emitted (wrapping_add id 1) blocks

pub run-nil : (crate : Raptorq) (n : ℕ) (s : State crate.Packet) → run crate n s [] ≡ []
unfolding run
run-nil crate n s = refl

module _ (crate : Raptorq) (n : ℕ) (hn : 0 < n) where
  -- The packets of the current block, from a state that holds fewer than `n` of them.
  run-block :
      (s : State crate.Packet) (cur : ℕ) (held : List crate.Packet) (datagrams : List (List ℕ))
      (events : List Event)
      → Holding s cur held
      → cur < 256
      → length held < n
      → n ≤ length held + length datagrams
      → Numbered crate n cur datagrams
      → (s' : State crate.Packet) × (run crate n s (feed datagrams ++ events)
          ≡ send (block cur (take n (held ++ packets_of crate n datagrams)))
            ∷ run crate n s' events)
        × Holding s' (wrapping_add cur 1) []
  run-block s cur held [] events h hc few enough num = absurd (omega arith)
  run-block s cur held (datagram ∷ datagrams) events h hc few enough num =
      elim (dec_lt (length held + 1) n) [
        | yes more ↦
            let (s', made, h') =
              run-block t cur held' datagrams events kept hc (omega (arith, grown))
                (omega (arith, grown)) num.1 in
            (
              s',
              run-short crate n hn s datagram (feed datagrams ++ events) cur held' h.synced kept
                    (omega (arith, grown))
                  ∙ made
                  ∙ ap (λ l. send (block cur (take n l)) ∷ run crate n s' events)
                      (append_assoc held (crate.deserialize datagram ∷ [])
                        (packets_of crate n datagrams)),
              h',
            )
        | no full ↦ (
          advance t,
          run-full crate n hn s datagram (feed datagrams ++ events) cur held' h.synced kept
                (omega (arith, grown))
              ∙ ap (λ r. send (block cur held') ∷ r)
                  (run-late_all crate n hn (advance t) datagrams events cur
                    (Holding-advance crate n hn t cur held' kept) hc num.1)
              ∙ ap (λ l. send (block cur l) ∷ run crate n (advance t) events)
                  (exact (omega (arith, grown))),
          Holding-advance crate n hn t cur held' kept,
        )
      ]
    where
      t : State crate.Packet
      t = push crate s datagram

      held' : List crate.Packet
      held' = held ++ crate.deserialize datagram ∷ []

      grown : length held' ≡ length held + 1
      grown = omega (arith, length-append held (crate.deserialize datagram ∷ []))

      kept : Holding t cur held'
      kept = push-Holding crate n hn s cur held datagram h num.0

      exact : n ≡ length held' → held' ≡ take n (held ++ packets_of crate n (datagram ∷ datagrams))
      exact e =
          sym (take-append_length n held' (packets_of crate n datagrams) e)
          ∙ ap (take n)
              (append_assoc held (crate.deserialize datagram ∷ []) (packets_of crate n datagrams))

  run-blocks :
      (s : State crate.Packet) (id : ℕ) (blocks : List (List (List ℕ)))
      → Holding s id []
      → id < 256
      → InOrder crate n id blocks
      → run crate n s (feed (concat blocks)) ≡ emitted crate n id blocks
  unfolding run
  run-blocks s id [] h hid o = refl
  run-blocks s id (datagrams ∷ blocks) h hid (num, enough, o) =
      let (s', made, h') =
        run-block s id [] datagrams (feed (concat blocks)) h hid hn (omega arith) num in
      ap (run crate n s)
        (map-append (λ datagram. received (single datagram)) datagrams (concat blocks))
      ∙ made
      ∙ ap (λ l. send (block id (take n (packets_of crate n datagrams))) ∷ l)
          (run-blocks s' (wrapping_add id 1) blocks h' (omega arith) o)

  and_then-finish :
      (action : Action crate.Packet)
      (drained : Option (State crate.Packet × List (Action crate.Packet)))
      (rest : State crate.Packet → List (Action crate.Packet))
      {out : State crate.Packet × List (Action crate.Packet)}
      → drained ≡ some out
      → and_then crate (finish crate (action ∷ []) drained) rest
        ≡ action ∷ and_then crate (finish crate [] drained) rest
  and_then-finish action none rest e = cc
  and_then-finish action (some out) rest e = refl

  -- The first packet announces its block, and is then treated like any other.
  run-first :
      (id : ℕ) (datagram : List ℕ) (events : List Event)
      → id < 256
      → number crate datagram ≡ id
      → run crate n (init crate.Packet) (received (single datagram) ∷ events)
        ≡ set_dispatch id ∷ run crate n (do_reset id) (received (single datagram) ∷ events)
  unfolding run step push_all
  run-first id datagram events hid e =
      let later = λ (s' : State crate.Packet). run crate n s' events in
      let opened = do_reset (number crate datagram) in
      let (out, drained, _) =
        drain-Drained n (push crate opened datagram) hn
          (push-IsWindow crate datagram (do_reset-IsWindow _ (rw e hid)))
          ((frame-push crate opened datagram).2 ∙ reset-do_reset crate.Packet _) in
      ap (λ r. and_then crate r later)
        (on_received-reset crate n (init crate.Packet) datagram [] refl)
      ∙ and_then-finish (set_dispatch (number crate datagram)) _ later drained
      ∙ ap (λ l. set_dispatch (number crate datagram) ∷ l)
          (sym (run-single crate n hn opened datagram events (reset-do_reset crate.Packet _)))
      ∙ ap (λ k. set_dispatch k ∷ run crate n (do_reset k) (received (single datagram) ∷ events)) e

  -- Packets of consecutive blocks, in order and one at a time: after the announcement of the first
  -- block, every block is emitted once, in order, with its first `min_nb_packets` packets; the
  -- others are dropped.
  pub run-InOrder :
      (id : ℕ) (first : List (List ℕ)) (blocks : List (List (List ℕ)))
      → id < 256
      → InOrder crate n id (first ∷ blocks)
      → run crate n (init crate.Packet) (feed (concat (first ∷ blocks)))
        ≡ set_dispatch id ∷ emitted crate n id (first ∷ blocks)
  run-InOrder id [] blocks hid o = absurd (omega (arith, o.1))
  run-InOrder id (datagram ∷ datagrams) blocks hid o =
      run-first id datagram (feed (datagrams ++ concat blocks)) hid o.0.0
      ∙ ap (λ l. set_dispatch id ∷ l)
          (run-blocks (do_reset id) id ((datagram ∷ datagrams) ∷ blocks)
            (Holding-do_reset crate n hn id hid) hid o)
