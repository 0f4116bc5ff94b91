-- ===== src/Receive/Reblock/Window.antt =====
-- The invariant of src/receive/reblock.rs: the slots that are not ignored are the 127 from the
-- current block on, and an ignored slot is empty.
use lidi.Prelude.{
  ℕ, zero, suc, ◌+◌, ◌-◌, ◌%◌, ◌<◌, ◌≡◌, refl, Bool, true, false, List, [], ◌∷◌, ◌++◌, arith, ltb,
  leb, ◌==◌, if◌then◌else◌, Bool-cases, inl, inr, ap, ◌∙◌,
}
use lidi.Protocol.Crate.{Raptorq}
use lidi.Receive.Reblock.{
  window_width, wrapping_add, update, State, init, open_window, do_reset, take_block, push,
  push_all, on_timeout, number,
}

-- How far `id` lies behind `from`, going up and round.
abbrev pub distance : ℕ → ℕ → ℕ
distance from id = (id + 256 - from) % 256

abbrev pub outside : ℕ → ℕ → Bool
outside cur id = if ltb id 256 then leb window_width (distance cur id) else true

pub record IsWindow {P : Type 0} (s : State P) : Type 0 where
  pub current : s.cur_id < 256
  pub quiet : (id : ℕ) → s.blocks_ignore id ≡ true → s.blocks_data id ≡ []
  pub window : s.reset ≡ false → (id : ℕ) → s.blocks_ignore id ≡ outside s.cur_id id

pub init-IsWindow : (P : Type 0) → IsWindow (init P)
init-IsWindow P = record { current = omega arith; quiet = λ id h. refl; window = λ h id. cc h }

-- The loop of the reset opens exactly the numbers from `id` up to `last`.
open_window_lem :
    (fuel id last : ℕ) (ignore : ℕ → Bool) (j : ℕ)
    → id < 256
    → last < 256
    → distance id last < fuel
    → open_window fuel id last ignore j ≡ (
        if ltb j 256
        then if ltb (distance id j) (distance id last) then false else ignore j
        else ignore j)
unfolding open_window
open_window_lem zero id last ignore j hi hl hf = absurd (omega arith)
open_window_lem (suc fuel) id last ignore j hi hl hf =
    ground (arith, open_window_lem fuel (wrapping_add id 1) last (update ignore id false) j)

pub do_reset-IsWindow : {P : Type 0} (id : ℕ) → id < 256 → IsWindow (do_reset {P = P} id)
unfolding do_reset
do_reset-IsWindow id h = record {
  current = h;
  quiet = λ j e. refl;
  window =
      λ _ j. ground (arith, open_window_lem 256 id (wrapping_add id window_width) (λ _. true) j);
}

pub on_timeout-IsWindow : {P : Type 0} {s : State P} → IsWindow s → IsWindow (on_timeout s).0
unfolding on_timeout
on_timeout-IsWindow w = record { current = w.current; quiet = w.quiet; window = λ h id. cc h }

pub take_block-quiet :
    {P : Type 0} {s : State P}
    → IsWindow s
    → (id : ℕ) → (take_block s).blocks_ignore id ≡ true
    → (take_block s).blocks_data id ≡ []
unfolding take_block
take_block-quiet {s = s} w id h = ground (arith, w.quiet id)

pub advance-IsWindow :
    {P : Type 0} {s : State P}
    → IsWindow s
    → s.reset ≡ false
    → IsWindow (record (take_block s) { cur_id = wrapping_add s.cur_id 1 })
unfolding take_block
advance-IsWindow {s = s} w h = record {
  current = omega arith;
  quiet = λ id e. ground (arith, w.quiet id);
  window = λ _ id. ground (arith, w.window h id, w.current);
}

module _ (crate : Raptorq) where
  -- A packet changes neither the current block, nor the window, nor the flag of the reset.
  pub frame-push :
      (s : State crate.Packet) (datagram : List ℕ)
      → ((push crate s datagram).cur_id ≡ s.cur_id)
        × ((push crate s datagram).blocks_ignore ≡ s.blocks_ignore)
        × ((push crate s datagram).reset ≡ s.reset)
  unfolding push
  frame-push s datagram = elim (Bool-cases (s.blocks_ignore (number crate datagram))) [
    | inl e ↦ rw e (refl, refl, refl)
    | inr e ↦ rw e (refl, refl, refl)
  ]

  pub push-ignored :
      (s : State crate.Packet) (datagram : List ℕ)
      → s.blocks_ignore (number crate datagram) ≡ true
      → push crate s datagram ≡ s
  unfolding push
  push-ignored s datagram e = rw e

  pub blocks_data-push :
      (s : State crate.Packet) (datagram : List ℕ)
      → s.blocks_ignore (number crate datagram) ≡ false
      → (id : ℕ)
      → (push crate s datagram).blocks_data id ≡ (
          if id == number crate datagram
          then s.blocks_data id ++ crate.deserialize datagram ∷ []
          else s.blocks_data id)
  unfolding push
  blocks_data-push s datagram e id = rw e (ground arith)

  pub push-IsWindow :
      {s : State crate.Packet} (datagram : List ℕ) → IsWindow s → IsWindow (push crate s datagram)
  push-IsWindow {s} datagram w = elim (Bool-cases (s.blocks_ignore (number crate datagram))) [
    | inl e ↦ rw (push-ignored s datagram e) w
    | inr e ↦
        let (same_id, same_ignore, same_reset) = frame-push s datagram in
        record {
          current = rw same_id w.current;
          quiet = λ id h. ground (
            arith,
            blocks_data-push s datagram e id,
            w.quiet id (rw same_ignore at h),
            ap (λ (f : ℕ → Bool). f id) same_ignore,
          );
          window = λ h id. rw (same_ignore, same_id) (w.window (rw same_reset at h) id);
        }
  ]

  pub push_all-IsWindow :
      (s : State crate.Packet) (datagrams : List (List ℕ))
      → IsWindow s
      → IsWindow (push_all crate s datagrams)
  unfolding push_all
  push_all-IsWindow s [] w = w
  push_all-IsWindow s (datagram ∷ datagrams) w =
      push_all-IsWindow (push crate s datagram) datagrams (push-IsWindow datagram w)

  pub frame-push_all :
      (s : State crate.Packet) (datagrams : List (List ℕ))
      → ((push_all crate s datagrams).cur_id ≡ s.cur_id)
        × ((push_all crate s datagrams).blocks_ignore ≡ s.blocks_ignore)
        × ((push_all crate s datagrams).reset ≡ s.reset)
  unfolding push_all
  frame-push_all s [] = (refl, refl, refl)
  frame-push_all s (datagram ∷ datagrams) =
      let (a, b, c) = frame-push_all (push crate s datagram) datagrams in
      let (a', b', c') = frame-push s datagram in (a ∙ a', b ∙ b', c ∙ c')
