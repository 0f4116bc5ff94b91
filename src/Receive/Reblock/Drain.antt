-- ===== src/Receive/Reblock/Drain.antt =====
-- The last loop of src/receive/reblock.rs, from a valid state.
use lidi.Prelude.{
  ℕ, zero, suc, ◌≤◌, ◌<◌, ◌≡◌, refl, false, some, List, [], ◌∷◌, arith, length, ap, ◌∙◌, gt→leb,
  le→leb,
}
use native.Mathlib.Decide.{dec_lt}
use lidi.Receive.{block}
use lidi.Receive.Reblock.{
  window_width, wrapping_add, State, Action, send, current, before, take_block, drain, drain_fuel,
}
use lidi.Receive.Reblock.Window.{distance, IsWindow, advance-IsWindow}

-- The slot that `take_block` opens was ignored, so it is empty.
pub opposite_empty :
    {P : Type 0} {s : State P}
    → IsWindow s
    → s.reset ≡ false
    → (take_block s).blocks_data (wrapping_add s.cur_id window_width) ≡ []
unfolding take_block
opposite_empty {s = s} w h =
    let id = wrapping_add s.cur_id window_width in
    ground (arith, w.window h id, w.quiet id, w.current)

abbrev pub advance : {P : Type 0} → State P → State P
advance s = record (take_block s) { cur_id = wrapping_add s.cur_id 1 }

-- One round of the loop in a valid state: it stops, or takes the current block and goes on.
pub drain-stop :
    {P : Type 0} (fuel n : ℕ) (s : State P)
    → length (s.blocks_data s.cur_id) < n
    → drain (suc fuel) n s ≡ some (s, [])
unfolding drain
drain-stop fuel n s h = rw (gt→leb n (length (s.blocks_data s.cur_id)) h, drain)

pub drain-take :
    {P : Type 0} (fuel n : ℕ) {s : State P}
    → IsWindow s
    → s.reset ≡ false
    → n ≤ length (s.blocks_data s.cur_id)
    → drain (suc fuel) n s ≡ before (current s) (drain fuel n (advance s))
unfolding drain
drain-take fuel n {s} w h e =
    rw (le→leb n (length (s.blocks_data s.cur_id)) e, drain, opposite_empty w h)

-- The slots that hold packets are less than `d` from the current one.
record Near {P : Type 0} (d : ℕ) (s : State P) : Type 0 where
  far : (id : ℕ) → id < 256 → d ≤ distance s.cur_id id → s.blocks_data id ≡ []

advance-Near :
    {P : Type 0} (d : ℕ) {s : State P} → s.cur_id < 256 → Near (suc d) s → Near d (advance s)
unfolding take_block
advance-Near d {s} h near = record { far = λ id hid e. ground (arith, near.far id) }

IsWindow-Near : {P : Type 0} {s : State P} → IsWindow s → s.reset ≡ false → Near 127 s
IsWindow-Near w h = record { far = λ id hid e. ground (arith, w.window h id, w.quiet id) }

-- The messages are the blocks from `id` on, in the order of their numbers, each with `n` packets
-- at least, and nothing else is done.
abbrev pub Run : {P : Type 0} → ℕ → ℕ → List (Action P) → Type 0
Run n id [] = Unit
Run n id (send (block j packets) ∷ rest) =
    (j ≡ id) × (n ≤ length packets) × Run n (wrapping_add id 1) rest
Run n id (_ ∷ rest) = ⊥

pub record Drained {P : Type 0} (n : ℕ) (s : State P) (out : State P × List (Action P))
    : Type 0 where
  pub valid : IsWindow out.0
  pub synced : out.0.reset ≡ false
  pub short : length (out.0.blocks_data out.0.cur_id) < n
  pub run : Run n s.cur_id out.1

drain-Near :
    {P : Type 0} (d fuel n : ℕ) (s : State P)
    → 0 < n
    → d < fuel
    → Near d s
    → IsWindow s
    → s.reset ≡ false
    → (out : State P × List (Action P)) × (drain fuel n s ≡ some out) × Drained n s out
unfolding take_block
drain-Near d zero n s hn hf near w h = absurd (omega arith)
drain-Near zero (suc fuel) n s hn hf near w h =
    let bare : s.blocks_data s.cur_id ≡ [] = near.far s.cur_id w.current (omega arith) in
    let less : length (s.blocks_data s.cur_id) < n = rw bare hn in
    ((s, []), drain-stop fuel n s less, record { valid = w; synced = h; short = less; run = tt })
drain-Near (suc d) (suc fuel) n s hn hf near w h =
    elim (dec_lt (length (s.blocks_data s.cur_id)) n) [
      | yes less ↦ (
        (s, []),
        drain-stop fuel n s less,
        record { valid = w; synced = h; short = less; run = tt },
      )
      | no enough ↦
          let ((t, actions), e, rest) =
            drain-Near d fuel n (advance s) hn (omega arith) (advance-Near d w.current near)
              (advance-IsWindow w h) h in
          (
            (t, current s ∷ actions),
            drain-take fuel n w h (omega arith) ∙ ap (before (current s)) e,
            record {
              valid = rest.valid;
              synced = rest.synced;
              short = rest.short;
              run = (refl, omega arith, rest.run);
            },
          )
    ]

-- In a valid state the loop ends within its fuel. It emits consecutive blocks from the current one
-- on, and leaves a valid state whose current block is too short.
pub drain-Drained :
    {P : Type 0} (n : ℕ) (s : State P)
    → 0 < n
    → IsWindow s
    → s.reset ≡ false
    → (out : State P × List (Action P)) × (drain drain_fuel n s ≡ some out) × Drained n s out
drain-Drained n s hn w h = drain-Near 127 drain_fuel n s hn (omega arith) (IsWindow-Near w h) w h
