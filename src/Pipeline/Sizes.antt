-- ===== src/Pipeline/Sizes.antt =====
-- The sizes of the blocks of src/send/server.rs: that of the RaptorQ block, whoever queues them.
use mathlib.Core.Path.{subst}
use lidi.Prelude.{
  ℕ, ◌^◌, ◌<◌, ◌≡◌, sym, some, none, Option, Bool, true, false, List, [], ◌∷◌, ◌++◌, All,
  All-append, All-append_inv, length, arith,
}
use lidi.Prelude.Outcome.{Outcome, ok, err}
use lidi.Protocol.RaptorQ.{RaptorQ}
use lidi.Protocol.Block.{Block, BlockType, ClientId, abort, heartbeat, new}
use lidi.Protocol.Block.Layout.{length-new}
use lidi.Stream.{Reader}
use lidi.Send.Client.{Error, run}
use lidi.Send.Client.Carries.{Carries, last, more, Parts, no_part, part, Ended, whole, cut}
use lidi.Send.Client.Rounds.{Setting}
use lidi.Send.Client.Splits.{run-Ended}
use lidi.Send.Encoding.InOrder.{somes, somes-append}
use lidi.Send.Parallel.{Serving, State, admitted, Step, Reach}
use lidi.Pipeline.Wire.{Sized}
use lidi.Pipeline.Room.{Room, Step-Room}
use lidi.Pipeline.Steps.{somes-mark}

-- A block of the size.
abbrev Fits : RaptorQ → Block → Type 0
Fits q b = length b ≡ q.transfer_length

abbrev Left : RaptorQ → Serving → Type 0
Left q w = Sized q w.left

-- All that is queued, or still to be queued, has the size.
pub record Sizes (q : RaptorQ) (s : State) : Type 0 where
  pub queued : Sized q (somes s.to_ordering)
  pub serving : All (Left q) s.serving
  pub aborting : Sized q s.aborting

module _ {q : RaptorQ} {id : ClientId} where
  Carries-Sized :
      {bytes : List ℕ} {blocks : List Block} → Carries q id bytes blocks → Sized q blocks
  Carries-Sized (last b reads sized) = (sized, tt)
  Carries-Sized (more head tail b blocks reads sized e c) = (sized, Carries-Sized c)

  Parts-Sized : {bytes : List ℕ} {blocks : List Block} → Parts q id bytes blocks → Sized q blocks
  Parts-Sized no_part = tt
  Parts-Sized (part head tail b blocks reads sized e p) = (sized, Parts-Sized p)

  Ended-Sized :
      {input : List ℕ} {works : Type 0} {blocks : List Block} {result : Outcome Error Unit}
      → Ended q id input works blocks result
      → Sized q blocks
  Ended-Sized (whole c) = Carries-Sized c
  Ended-Sized (cut bytes unsent e parts fails) = Parts-Sized parts

pub run-Sized :
    (capacity : ℕ → ℕ → ℕ) (flush : Bool) (q : RaptorQ) (id : ClientId) (client : Reader)
    (blocks : List Block) (result : Outcome Error Unit)
    → Setting capacity q id
    → run capacity flush q id client ≡ some (blocks, result)
    → Sized q blocks
run-Sized capacity flush q id client blocks result set e =
    let (b, bs, r, ran, reads, sized, ended) = run-Ended capacity flush q id set client in
    let same : b ∷ bs ≡ blocks = cc (ran, e) in subst (Sized q) same (sized, Ended-Sized ended)

-- A block without data.
made-Fits :
    (capacity : ℕ → ℕ → ℕ) (kind : BlockType) (q : RaptorQ) (id : ClientId) (b : Block)
    → Setting capacity q 0
    → new capacity kind q id none ≡ ok b
    → Fits q b
made-Fits capacity kind q id b set e =
    let (b', made, sized) =
      length-new capacity kind q id none (omega (arith, set.room)) set.small (omega arith)
        set.exact in
    let same : b' ≡ b = cc (made, e) in subst (Fits q) same sized

module _ (capacity : ℕ → ℕ → ℕ) (flush : Bool) (q : RaptorQ) (nb_encode_threads : ℕ)
    (interval : Option ℕ) (set : (id : ClientId) → id < 2 ^ 32 → Setting capacity q id) where
  queue-Sized :
      (queue : List (Option Block)) (b : Block)
      → Sized q (somes queue)
      → Fits q b
      → Sized q (somes (queue ++ some b ∷ []))
  queue-Sized queue b h fits =
      subst (Sized q) (sym (somes-append queue (some b ∷ [])))
        (All-append (Fits q) (somes queue) (b ∷ []) h (fits, tt))

  admitted-Sizes :
      {s : State} (waiting : List Reader) (free : ℕ) (blocks : List Block) (failed : Bool)
      → Sized q blocks
      → Sizes q s
      → Sizes q (admitted s waiting free blocks failed)
  admitted-Sizes {s} waiting free blocks failed sized v = record {
    queued = v.queued;
    serving = All-append (Left q) s.serving _ v.serving (sized, tt);
    aborting = v.aborting;
  }

  pub Step-Sizes :
      {s t : State}
      → Sizes q s
      → Step capacity flush q nb_encode_threads interval s t
      → Room s
      → Sizes q t
  Step-Sizes v (Step.take client rest' others e idle et) room =
      subst (Sizes q) (sym et)
        (record { queued = v.queued; serving = v.serving; aborting = v.aborting })
  Step-Sizes v (Step.stop rest' others e idle et) room =
      subst (Sizes q) (sym et)
        (record { queued = v.queued; serving = v.serving; aborting = v.aborting })
  Step-Sizes {s} v (Step.mark before after others e et) room = subst (Sizes q) (sym et) (record {
    queued = subst (Sized q) (sym (somes-mark s.to_ordering)) v.queued;
    serving = v.serving;
    aborting = v.aborting;
  })
  Step-Sizes {s} v (Step.admit before after client free queue e permit ran et) room =
      subst (Sizes q) (sym et) (
        admitted-Sizes (before ++ after) free queue false
          (run-Sized capacity flush q s.counter client queue (ok tt)
            (set s.counter (omega (arith, room))) ran)
          v)
  Step-Sizes {s} v (Step.admit_failing before after client free queue error e permit ran et) room =
      subst (Sizes q) (sym et) (
        admitted-Sizes (before ++ after) free queue true
          (run-Sized capacity flush q s.counter client queue (err error)
            (set s.counter (omega (arith, room))) ran)
          v)
  Step-Sizes {s} v (Step.put before after w b left e el et) room =
      let (l, r) = All-append_inv (Left q) before (w ∷ after) (subst (All (Left q)) e v.serving) in
      let sized = subst (Sized q) el r.0 in
      subst (Sizes q) (sym et) (record {
        queued = queue-Sized s.to_ordering b v.queued sized.0;
        serving = All-append (Left q) before _ l (sized.1, r.1);
        aborting = v.aborting;
      })
  Step-Sizes {s} v (Step.signal before after w e el well et) room =
      let (l, r) = All-append_inv (Left q) before (w ∷ after) (subst (All (Left q)) e v.serving) in
      subst (Sizes q) (sym et) (record {
        queued = v.queued;
        serving = All-append (Left q) before after l r.1;
        aborting = v.aborting;
      })
  Step-Sizes {s} v (Step.fail before after w b e el failed made et) room =
      let (l, r) = All-append_inv (Left q) before (w ∷ after) (subst (All (Left q)) e v.serving) in
      subst (Sizes q) (sym et) (record {
        queued = v.queued;
        serving = All-append (Left q) before after l r.1;
        aborting =
            All-append (Fits q) s.aborting (b ∷ []) v.aborting
              (made-Fits capacity abort q w.id b (set 0 (omega arith)) made, tt);
      })
  Step-Sizes {s} v (Step.abort_client before after b e et) room =
      let (l, r) = All-append_inv (Fits q) before (b ∷ after) (subst (Sized q) e v.aborting) in
      subst (Sizes q) (sym et) (record {
        queued = queue-Sized s.to_ordering b v.queued r.0;
        serving = v.serving;
        aborting = All-append (Fits q) before after l r.1;
      })
  Step-Sizes {s} v (Step.beat n b on made et) room = subst (Sizes q) (sym et) (record {
    queued =
        queue-Sized s.to_ordering b v.queued
          (made-Fits capacity heartbeat q 0 b (set 0 (omega arith)) made);
    serving = v.serving;
    aborting = v.aborting;
  })

  pub Reach-Sizes :
      {t u : State}
      → Room t
      → Sizes q t
      → Reach capacity flush q nb_encode_threads interval t u
      → Room u × Sizes q u
  Reach-Sizes room v Reach.here = (room, v)
  Reach-Sizes room v (Reach.next r step) =
      let (room', v') = Reach-Sizes room v r in
      let (le, room'') = Step-Room capacity flush q nb_encode_threads interval step room' in
      (room'', Step-Sizes v' step room')
