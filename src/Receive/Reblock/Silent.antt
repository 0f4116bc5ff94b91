-- ===== src/Receive/Reblock/Silent.antt =====
-- What one round of src/receive/reblock.rs does, on every event.
use lidi.Prelude.{
  ℕ, zero, suc, ◌<◌, ◌≡◌, refl, Bool, true, false, List, [], ◌∷◌, ◌++◌, arith, if◌then◌else◌,
  Bool-cases, inl, inr, ap, sym, ◌∙◌, All, All-append,
}
use mathlib.Core.Path.{subst}
use lidi.Prelude.Outcome.{Outcome, ok, err, panic, ◌>>=◌}
use lidi.Protocol.Crate.{Raptorq, Laws}
use lidi.Receive.{error, block}
use lidi.Receive.Reblock.{
  State, init, Action, send, set_dispatch, Event, timeout, disconnected, received, damaged_below,
  on_timeout, do_reset, drain, drain_fuel, push_all, contents, number, finish, and_then, run,
  wrapping_add, with_reset, on_received, step,
}
use lidi.Receive.Reblock.Window.{
  IsWindow, init-IsWindow, do_reset-IsWindow, on_timeout-IsWindow, push_all-IsWindow,
  frame-push_all,
}
use lidi.Receive.Reblock.Drain.{Run, drain-Drained}

-- Where the blocks of a round begin, and what precedes them.
module _ (crate : Raptorq) where
  abbrev pub origin : State crate.Packet → List ℕ → ℕ
  origin s first = if s.reset then number crate first else s.cur_id

  abbrev pub opening : State crate.Packet → List ℕ → List (Action crate.Packet)
  opening s first = if s.reset then set_dispatch (number crate first) ∷ [] else []

pub record Round (crate : Raptorq) (n : ℕ) (s : State crate.Packet) (first : List ℕ)
    (out : State crate.Packet × List (Action crate.Packet)) : Type 0 where
  pub valid : IsWindow out.0
  pub synced : out.0.reset ≡ false
  pub blocks : List (Action crate.Packet)
  pub actions : out.1 ≡ opening crate s first ++ blocks
  pub run : Run n (origin crate s first) blocks

module _ (crate : Raptorq) (n : ℕ) (s : State crate.Packet) (first : List ℕ)
    (more : List (List ℕ)) where
  abbrev after : Bool → Outcome (Unit {0}) (State crate.Packet × List (Action crate.Packet))
  after reset = (if reset then with_reset crate s (first ∷ more) else ok (s, [])) >>= λ x.
      finish crate x.1 (drain drain_fuel n (push_all crate x.0 (first ∷ more)))

  pub on_received-reset :
      s.reset ≡ true
      → on_received crate n s (first ∷ more)
        ≡ finish crate
            (set_dispatch (number crate first) ∷ [])
            (drain drain_fuel n (push_all crate (do_reset (number crate first)) (first ∷ more)))
  unfolding on_received
  on_received-reset e = ap after e

  pub on_received-synced :
      s.reset ≡ false
      → on_received crate n s (first ∷ more)
        ≡ finish crate [] (drain drain_fuel n (push_all crate s (first ∷ more)))
  unfolding on_received
  on_received-synced e = ap after e

pub cur_id-do_reset : (P : Type 0) (id : ℕ) → (do_reset {P = P} id).cur_id ≡ id
unfolding do_reset
cur_id-do_reset P id = refl

pub reset-do_reset : (P : Type 0) (id : ℕ) → (do_reset {P = P} id).reset ≡ false
unfolding do_reset
reset-do_reset P id = refl

module _ (crate : Raptorq) (n : ℕ) (hn : 0 < n) where
  -- The rest of a round from a state in step with the window.
  finish_round :
      (s : State crate.Packet) (actions : List (Action crate.Packet)) (datagrams : List (List ℕ))
      → IsWindow s
      → s.reset ≡ false
      → (t : State crate.Packet) × (blocks : List (Action crate.Packet)) × (finish crate actions
            (drain drain_fuel n (push_all crate s datagrams))
          ≡ ok (t, actions ++ blocks))
        × IsWindow t
        × (t.reset ≡ false)
        × Run n s.cur_id blocks
  finish_round s actions datagrams w h =
      let (same_id, same_ignore, same_reset) = frame-push_all crate s datagrams in
      let (out, e, drained) =
        drain-Drained n (push_all crate s datagrams) hn (push_all-IsWindow crate s datagrams w)
          (same_reset ∙ h) in
      (
        out.0,
        out.1,
        rw e,
        drained.valid,
        drained.synced,
        subst (λ k. Run n k out.1) same_id drained.run,
      )

  -- From a valid state a message is processed without a panic, into a valid state. A reset first
  -- announces the first packet's block number; then consecutive blocks are sent, from that number
  -- or else from the current one on, each with `min_nb_packets` packets at least.
  pub on_received-Round :
      (laws : Laws crate) (s : State crate.Packet) (first : List ℕ) (more : List (List ℕ))
      → IsWindow s
      → (out : State crate.Packet × List (Action crate.Packet)) × (on_received crate n s
            (first ∷ more)
          ≡ ok out)
        × Round crate n s first out
  on_received-Round laws s first more w = elim (Bool-cases s.reset) [
    | inl e ↦
        let start = number crate first in
        let (t, blocks, made, valid, synced, run) =
          finish_round (do_reset start) (set_dispatch start ∷ []) (first ∷ more)
            (do_reset-IsWindow start (laws.number-lt _)) (reset-do_reset crate.Packet start) in
        (
          (t, set_dispatch start ∷ blocks),
          on_received-reset crate n s first more e ∙ made,
          record {
            valid = valid;
            synced = synced;
            blocks = blocks;
            actions = ap (λ b. (if b then set_dispatch start ∷ [] else []) ++ blocks) (sym e);
            run =
                subst (λ k. Run n k blocks)
                  (cur_id-do_reset crate.Packet start
                    ∙ ap (λ b. if b then start else s.cur_id) (sym e))
                  run;
          },
        )
    | inr e ↦
        let (t, blocks, made, valid, synced, run) = finish_round s [] (first ∷ more) w e in
        (
          (t, blocks),
          on_received-synced crate n s first more e ∙ made,
          record {
            valid = valid;
            synced = synced;
            blocks = blocks;
            actions =
                ap (λ b. (if b then set_dispatch (number crate first) ∷ [] else []) ++ blocks)
                  (sym e);
            run =
                subst (λ k. Run n k blocks)
                  (ap (λ b. if b then number crate first else s.cur_id) (sym e)) run;
          },
        )
  ]

-- Nothing but a report of lost blocks is `error`.
abbrev pub IsQuiet : {P : Type 0} → Action P → Type 0
IsQuiet (send error) = ⊥
IsQuiet _ = Unit

Run-IsQuiet :
    {P : Type 0} (n id : ℕ) (blocks : List (Action P)) → Run n id blocks → All IsQuiet blocks
Run-IsQuiet n id [] r = tt
Run-IsQuiet n id (send (block j packets) ∷ rest) r =
    (tt, Run-IsQuiet n (wrapping_add id 1) rest r.2)
Run-IsQuiet n id (send error ∷ rest) r = absurd r
Run-IsQuiet n id (set_dispatch k ∷ rest) r = absurd r

not-damaged : {P : Type 0} {s : State P} → IsWindow s → (n : ℕ) → damaged_below n s ≡ false
unfolding damaged_below
not-damaged w zero = refl
not-damaged {s = s} w (suc n) = ground (arith, not-damaged w n, w.quiet n)

set_dispatch-IsQuiet :
    (P : Type 0) (b : Bool) (id : ℕ)
    → All (IsQuiet {P = P}) (if b then set_dispatch id ∷ [] else [])
set_dispatch-IsQuiet P true id = (tt, tt)
set_dispatch-IsQuiet P false id = tt

module _ (crate : Raptorq) where
  -- An end of the worker, or a valid state with no report.
  abbrev Quiet : Outcome (Unit {0}) (State crate.Packet × List (Action crate.Packet)) → Type 0
  Quiet (ok (s, actions)) = IsWindow s × All IsQuiet actions
  Quiet (err e) = Unit
  Quiet panic = Unit

  and_then-IsQuiet :
      (r : Outcome (Unit {0}) (State crate.Packet × List (Action crate.Packet)))
      (rest : State crate.Packet → List (Action crate.Packet))
      → Quiet r
      → ((s : State crate.Packet) → IsWindow s → All IsQuiet (rest s))
      → All IsQuiet (and_then crate r rest)
  and_then-IsQuiet (ok (s, actions)) rest (w, quiet) h =
      All-append IsQuiet actions (rest s) quiet (h s w)
  and_then-IsQuiet (err e) rest q h = tt
  and_then-IsQuiet panic rest q h = tt

module _ (crate : Raptorq) (laws : Laws crate) (n : ℕ) (hn : 0 < n) where
  no_packets-Quiet : (s : State crate.Packet) → IsWindow s → Quiet crate (on_received crate n s [])
  unfolding on_received push_all
  no_packets-Quiet s w = elim (Bool-cases s.reset) [
    | inl e ↦ subst (λ b. Quiet crate (on_empty b)) (sym e) tt
    | inr e ↦
        let (t, blocks, made, valid, synced, run) = finish_round crate n hn s [] [] w e in
        subst (λ b. Quiet crate (on_empty b)) (sym e)
          (subst (Quiet crate) (sym made) (valid, Run-IsQuiet n s.cur_id blocks run))
  ]
    where
      on_empty : Bool → Outcome (Unit {0}) (State crate.Packet × List (Action crate.Packet))
      on_empty reset = (if reset then with_reset crate s [] else ok (s, [])) >>= λ x.
          finish crate x.1 (drain drain_fuel n (push_all crate x.0 []))

  on_received-Quiet :
      (s : State crate.Packet) (datagrams : List (List ℕ))
      → IsWindow s
      → Quiet crate (on_received crate n s datagrams)
  on_received-Quiet s [] w = no_packets-Quiet s w
  on_received-Quiet s (first ∷ more) w =
      let (out, made, round) = on_received-Round crate n hn laws s first more w in
      subst (Quiet crate) (sym made) (
        round.valid,
        subst (All IsQuiet) (sym round.actions) (
            All-append IsQuiet (opening crate s first) round.blocks
              (set_dispatch-IsQuiet crate.Packet s.reset (number crate first))
              (Run-IsQuiet n _ round.blocks round.run)),
      )

  step-Quiet :
      (s : State crate.Packet) (event : Event) → IsWindow s → Quiet crate (step crate n s event)
  unfolding step on_timeout
  step-Quiet s timeout w = (
    on_timeout-IsWindow w,
    subst (λ b. All (IsQuiet {P = crate.Packet}) (if b then send error ∷ [] else []))
        (sym (not-damaged w 256)) tt,
  )
  step-Quiet s disconnected w = tt
  step-Quiet s (received datagrams) w = on_received-Quiet s (contents crate datagrams) w

  run-IsQuiet_from :
      (s : State crate.Packet) (events : List Event)
      → IsWindow s
      → All IsQuiet (run crate n s events)
  unfolding run
  run-IsQuiet_from s [] w = tt
  run-IsQuiet_from s (event ∷ events) w =
      and_then-IsQuiet crate (step crate n s event) (λ s'. run crate n s' events)
        (step-Quiet s event w) (λ s' w'. run-IsQuiet_from s' events w')

  -- Whatever events come, in whatever order, the worker never reports a lost block: no `error` is
  -- sent to the decoders, on a timeout or otherwise.
  pub run-IsQuiet : (events : List Event) → All IsQuiet (run crate n (init crate.Packet) events)
  run-IsQuiet events = run-IsQuiet_from (init crate.Packet) events (init-IsWindow crate.Packet)
