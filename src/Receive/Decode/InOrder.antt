-- ===== src/Receive/Decode/InOrder.antt =====
-- The order in which the decoders of src/receive/decode.rs dispatch decodable blocks.
use mathlib.Core.Path.{subst}
use lidi.Prelude.{
  ℕ, ◌+◌, ◌%◌, ◌≤◌, ◌<◌, ◌≡◌, ◌≢◌, refl, ap, sym, ◌∙◌, Option, none, some, List, [], ◌∷◌, ◌++◌,
  length, map, arith, append_assoc, append-nil, length-append,
}
use lidi.Protocol.Block.{Block}
use lidi.Protocol.Crate.{Raptorq}
use lidi.Protocol.RaptorQ.{RaptorQ, decode}
use lidi.Receive.{Reassembled, error, block}
use lidi.Receive.Decode.{State, Step, take, lost, propagate, release, Reach, here, next}
use lidi.Turn.{Consecutive, only_first}

module _ (crate : Raptorq) (q : RaptorQ) where
  -- The queue holds blocks that are decoded to these, under these numbers.
  abbrev pub Decodes : List (Reassembled crate.Packet) → List (ℕ × Block) → Type 0
  Decodes [] [] = Unit
  Decodes (block id packets ∷ queue) ((j, b) ∷ jobs) =
      (id ≡ j) × (decode crate q id packets ≡ some b) × Decodes queue jobs
  Decodes _ _ = ⊥

  abbrev pub dispatched : List (ℕ × Block) → List (Option Block)
  dispatched = map (λ job. some job.1)

  pub record Inv (all jobs : List (ℕ × Block)) (s : State crate.Packet) : Type 0 where
    pub turn : s.block_to_dispatch < 256
    pub room : length s.waiting ≤ s.threads
    pub few : s.threads ≤ 255
    pub queue : Decodes s.for_decode jobs
    pub order : Consecutive s.block_to_dispatch (s.waiting ++ jobs)
    pub whole : s.to_dispatch ++ dispatched (s.waiting ++ jobs) ≡ dispatched all

  pub take-Inv :
      {all jobs : List (ℕ × Block)} {s : State crate.Packet} (id : ℕ) (b : Block)
      (rest : List (Reassembled crate.Packet))
      → length s.waiting < s.threads
      → Decodes rest jobs
      → Inv all ((id, b) ∷ jobs) s
      → Inv all jobs (record s { for_decode = rest; waiting = s.waiting ++ (id, b) ∷ [] })
  take-Inv {jobs = jobs} {s = s} id b rest free decodes v = record {
    turn = v.turn;
    room = omega (arith, length-append s.waiting ((id, b) ∷ []));
    few = v.few;
    queue = decodes;
    order =
        subst (Consecutive s.block_to_dispatch) (sym (append_assoc s.waiting ((id, b) ∷ []) jobs))
          v.order;
    whole =
        ap (λ l. s.to_dispatch ++ dispatched l) (append_assoc s.waiting ((id, b) ∷ []) jobs)
        ∙ v.whole;
  }

  held_first :
      {all jobs : List (ℕ × Block)} {s : State crate.Packet} (before after : List (ℕ × Block))
      (id : ℕ) (b : Block)
      → s.waiting ≡ before ++ (id, b) ∷ after
      → id ≡ s.block_to_dispatch
      → Inv all jobs s
      → before ≡ []
  held_first {jobs = jobs} {s = s} before after id b held turn v =
      only_first s.block_to_dispatch before (after ++ jobs) id b v.turn
        (omega (
          arith,
          v.room,
          v.few,
          ap (length {A = ℕ × Block}) held,
          length-append before ((id, b) ∷ after),
        ))
        (subst (Consecutive s.block_to_dispatch)
          (ap (λ l. l ++ jobs) held ∙ append_assoc before ((id, b) ∷ after) jobs) v.order)
        turn

  pub release-Inv :
      {all jobs : List (ℕ × Block)} {s : State crate.Packet} (after : List (ℕ × Block)) (id : ℕ)
      (b : Block)
      → s.waiting ≡ (id, b) ∷ after
      → Inv all jobs s
      → Inv all jobs (record s {
        waiting = after;
        block_to_dispatch = (s.block_to_dispatch + 1) % 256;
        to_dispatch = s.to_dispatch ++ some b ∷ [];
      })
  release-Inv {jobs = jobs} {s = s} after id b held v = record {
    turn = omega arith;
    room = omega (arith, v.room, ap (length {A = ℕ × Block}) held);
    few = v.few;
    queue = v.queue;
    order = (subst (λ l. Consecutive s.block_to_dispatch (l ++ jobs)) held v.order).1;
    whole =
        append_assoc s.to_dispatch (some b ∷ []) (dispatched (after ++ jobs))
        ∙ ap (λ l. s.to_dispatch ++ dispatched (l ++ jobs)) (sym held)
        ∙ v.whole;
  }

  -- The remaining jobs after a step, with the invariant.
  abbrev pub Holds : List (ℕ × Block) → State crate.Packet → Type 0
  Holds all s = (jobs : List (ℕ × Block)) × Inv all jobs s

  taken :
      {all : List (ℕ × Block)} {s : State crate.Packet} (jobs : List (ℕ × Block)) (id : ℕ)
      (packets : List crate.Packet) (b : Block) (rest : List (Reassembled crate.Packet))
      → s.for_decode ≡ block id packets ∷ rest
      → length s.waiting < s.threads
      → decode crate q id packets ≡ some b
      → Inv all jobs s
      → Holds all (record s { for_decode = rest; waiting = s.waiting ++ (id, b) ∷ [] })
  taken [] id packets b rest queue free e v = absurd (subst (λ l. Decodes l []) queue v.queue)
  taken {all} {s} ((j, b') ∷ jobs) id packets b rest queue free e v =
      let (same, made, decodes) = subst (λ l. Decodes l ((j, b') ∷ jobs)) queue v.queue in
      let job : (j, b') ≡ (id, b) = cc (same, made, e) in
      (jobs, take-Inv id b rest free decodes (subst (λ x. Inv all (x ∷ jobs) s) job v))

  -- A decodable queue has no loss and no report at its head.
  no_loss :
      (jobs : List (ℕ × Block)) (id : ℕ) (packets : List crate.Packet)
      (rest : List (Reassembled crate.Packet))
      → Decodes (block id packets ∷ rest) jobs
      → decode crate q id packets ≢ none
  no_loss [] id packets rest d e = absurd d
  no_loss ((j, b) ∷ jobs) id packets rest d e = cc (d.1, e)

  no_report :
      (jobs : List (ℕ × Block)) (rest : List (Reassembled crate.Packet))
      → ¬ Decodes (error ∷ rest) jobs
  no_report [] rest d = d
  no_report (job ∷ jobs) rest d = d

  Step-Holds :
      {all : List (ℕ × Block)} {s t : State crate.Packet}
      → Step crate q s t
      → Holds all s
      → Holds all t
  Step-Holds {all} (take id packets bytes rest queue free e made) (jobs, v) =
      subst (Holds all) (sym made) (taken jobs id packets bytes rest queue free e v)
  Step-Holds (lost id packets rest queue free e made) (jobs, v) =
      absurd (no_loss jobs id packets rest (subst (λ l. Decodes l jobs) queue v.queue) e)
  Step-Holds (propagate rest queue free made) (jobs, v) =
      absurd (no_report jobs rest (subst (λ l. Decodes l jobs) queue v.queue))
  Step-Holds {all} {s} (release before after id b held turn made) (jobs, v) =
      let first = held_first before after id b held turn v in
      subst (Holds all)
        (ap
            (λ l. record s {
              waiting = l ++ after;
              block_to_dispatch = (s.block_to_dispatch + 1) % 256;
              to_dispatch = s.to_dispatch ++ some b ∷ [];
            })
            (sym first)
          ∙ sym made)
        (jobs, release-Inv after id b (held ∙ ap (λ l. l ++ (id, b) ∷ after) first) v)

  pub Reach-Holds :
      {all : List (ℕ × Block)} {s t : State crate.Packet}
      → Holds all s
      → Reach crate q s t
      → Holds all t
  Reach-Holds v here = v
  Reach-Holds v (next r step) = Step-Holds step (Reach-Holds v r)

  -- The decoders before the first of these blocks, with the counter where the reset put it.
  abbrev pub fresh : ℕ → ℕ → List (Reassembled crate.Packet) → State crate.Packet
  fresh threads id queue = record {
    for_decode = queue;
    waiting = [];
    threads = threads;
    block_to_dispatch = id;
    to_dispatch = [];
  }

  pub started :
      (threads id : ℕ) (queue : List (Reassembled crate.Packet)) (jobs : List (ℕ × Block))
      → threads ≤ 255
      → id < 256
      → Decodes queue jobs
      → Consecutive id jobs
      → Inv jobs jobs (fresh threads id queue)
  started threads id queue jobs few hid decodes order = record {
    turn = hid;
    room = omega arith;
    few = few;
    queue = decodes;
    order = order;
    whole = refl;
  }

  all_taken : (rest : List (ℕ × Block)) → Decodes [] rest → rest ≡ []
  all_taken [] d = refl
  all_taken (job ∷ rest) d = absurd d

  pub ended :
      {jobs : List (ℕ × Block)} {s : State crate.Packet} (rest : List (ℕ × Block))
      → Inv jobs rest s
      → s.for_decode ≡ []
      → s.waiting ≡ []
      → s.to_dispatch ≡ dispatched jobs
  ended {s = s} rest v empty idle =
      let none_left = all_taken rest (subst (λ l. Decodes l rest) empty v.queue) in
      sym (append-nil s.to_dispatch)
      ∙ ap (λ l. s.to_dispatch ++ dispatched l) (sym (ap (λ l. l ++ rest) idle ∙ none_left))
      ∙ v.whole

  -- In whatever order up to 255 threads run: if the queued blocks can be decoded and are numbered
  -- from the counter on, what has been dispatched is at every moment the first of them, in order.
  pub decoders_in_order :
      (threads id : ℕ) (queue : List (Reassembled crate.Packet)) (jobs : List (ℕ × Block))
      (s : State crate.Packet)
      → threads ≤ 255
      → id < 256
      → Decodes queue jobs
      → Consecutive id jobs
      → Reach crate q (fresh threads id queue) s
      → (rest : List (ℕ × Block)) × (s.to_dispatch ++ dispatched rest ≡ dispatched jobs)
  decoders_in_order threads id queue jobs s few hid decodes order r =
      let (rest, v) = Reach-Holds (jobs, started threads id queue jobs few hid decodes order) r in
      (s.waiting ++ rest, v.whole)

  -- The same threads, once the queue is empty and none of them waits, have dispatched all of the
  -- queued blocks in order, and nothing else.
  pub decoders_complete :
      (threads id : ℕ) (queue : List (Reassembled crate.Packet)) (jobs : List (ℕ × Block))
      (s : State crate.Packet)
      → threads ≤ 255
      → id < 256
      → Decodes queue jobs
      → Consecutive id jobs
      → Reach crate q (fresh threads id queue) s
      → s.for_decode ≡ []
      → s.waiting ≡ []
      → s.to_dispatch ≡ dispatched jobs
  decoders_complete threads id queue jobs s few hid decodes order r empty idle =
      let (rest, v) = Reach-Holds (jobs, started threads id queue jobs few hid decodes order) r in
      ended rest v empty idle
