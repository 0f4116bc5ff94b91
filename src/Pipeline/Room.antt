-- ===== src/Pipeline/Room.antt =====
-- The counter of the clients in src/send/server.rs, as the servers step.

use lidi.Prelude.{
  ℕ, ◌+◌, ◌^◌, ◌≤◌, ◌<◌, ◌≡◌, ap, Option, Bool, true, false, List, [], ◌∷◌, ◌++◌, length,
  length-append, arith,
}
use lidi.Protocol.RaptorQ.{RaptorQ}
use lidi.Protocol.Block.{Block}
use lidi.Stream.{Reader}
use lidi.Send.Parallel.{State, admitted, Step}

-- The counter does not wrap.
abbrev pub Room : State → Type 0
Room s = s.counter + (length s.waiting + length s.for_server) < 2 ^ 32

-- A client that is admitted moves the counter on.
pub counted :
    (s : State) {t : State} (before after : List Reader) (client : Reader) (free : ℕ)
    (queue : List Block) (failed : Bool)
    → s.waiting ≡ before ++ client ∷ after
    → Room s
    → t ≡ admitted s (before ++ after) free queue failed
    → (s.counter < t.counter) × Room t
counted s before after client free queue failed e room et = omega (
  arith,
  room,
  ap (length {A = Reader}) e,
  length-append before (client ∷ after),
  length-append before after,
  ap (λ (x : State). x.counter) et,
  ap (λ (x : State). length x.waiting) et,
  ap (λ (x : State). length x.for_server) et,
)

module _ (capacity : ℕ → ℕ → ℕ) (flush : Bool) (q : RaptorQ) (nb_encode_threads : ℕ)
    (interval : Option ℕ) where
  -- A step keeps the counter from wrapping, and does not move it back.
  pub Step-Room :
      {s t : State}
      → Step capacity flush q nb_encode_threads interval s t
      → Room s
      → (s.counter ≤ t.counter) × Room t
  Step-Room {s} (Step.take client rest' others e idle et) room = omega (
    arith,
    room,
    ap (length {A = Option Reader}) e,
    length-append s.waiting (client ∷ []),
    ap (λ (x : State). x.counter) et,
    ap (λ (x : State). length x.waiting) et,
    ap (λ (x : State). length x.for_server) et,
  )
  Step-Room {s} (Step.stop rest' others e idle et) room = omega (
    arith,
    room,
    ap (length {A = Option Reader}) e,
    ap (λ (x : State). x.counter) et,
    ap (λ (x : State). length x.waiting) et,
    ap (λ (x : State). length x.for_server) et,
  )
  Step-Room {s} (Step.admit before after client free queue e permit ran et) room =
      let (more, kept) = counted s before after client free queue false e room et in
      (omega arith, kept)
  Step-Room {s} (Step.admit_failing before after client free queue error e permit ran et) room =
      let (more, kept) = counted s before after client free queue true e room et in
      (omega arith, kept)
  Step-Room {s} (Step.mark before after others e et) room = omega (
    arith,
    room,
    ap (λ (x : State). x.counter) et,
    ap (λ (x : State). length x.waiting) et,
    ap (λ (x : State). length x.for_server) et,
  )
  Step-Room {s} (Step.put before after w b left e el et) room = omega (
    arith,
    room,
    ap (λ (x : State). x.counter) et,
    ap (λ (x : State). length x.waiting) et,
    ap (λ (x : State). length x.for_server) et,
  )
  Step-Room {s} (Step.signal before after w e el well et) room = omega (
    arith,
    room,
    ap (λ (x : State). x.counter) et,
    ap (λ (x : State). length x.waiting) et,
    ap (λ (x : State). length x.for_server) et,
  )
  Step-Room {s} (Step.fail before after w b e el failed made et) room = omega (
    arith,
    room,
    ap (λ (x : State). x.counter) et,
    ap (λ (x : State). length x.waiting) et,
    ap (λ (x : State). length x.for_server) et,
  )
  Step-Room {s} (Step.abort_client before after b e et) room = omega (
    arith,
    room,
    ap (λ (x : State). x.counter) et,
    ap (λ (x : State). length x.waiting) et,
    ap (λ (x : State). length x.for_server) et,
  )
  Step-Room {s} (Step.beat n b on made et) room = omega (
    arith,
    room,
    ap (λ (x : State). x.counter) et,
    ap (λ (x : State). length x.waiting) et,
    ap (λ (x : State). length x.for_server) et,
  )
