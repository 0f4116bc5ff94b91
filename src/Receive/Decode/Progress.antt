-- ===== src/Receive/Decode/Progress.antt =====
-- The decoders of src/receive/decode.rs can always go on until the queue is empty.
use mathlib.Core.Path.{subst}
use lidi.Prelude.{
  ℕ, ◌+◌, ◌%◌, ◌≤◌, ◌<◌, ◌≡◌, refl, ap, sym, ◌∙◌, some, List, [], ◌∷◌, ◌++◌, length, arith,
}
use lidi.Protocol.Block.{Block}
use lidi.Protocol.Crate.{Raptorq}
use lidi.Protocol.RaptorQ.{RaptorQ, decode}
use lidi.Receive.{Reassembled, error, block}
use lidi.Receive.Decode.{State, Step, take, lost, propagate, release, Reach, here, next}
use lidi.Receive.Decode.InOrder.{
  Decodes, dispatched, Inv, take-Inv, release-Inv, Reach-Holds, fresh, started, ended,
}
use lidi.Turn.{Consecutive}

module _ (crate : Raptorq) (q : RaptorQ) where
  Reach-Reach :
      {s t u : State crate.Packet} → Reach crate q s t → Reach crate q t u → Reach crate q s u
  Reach-Reach r here = r
  Reach-Reach r (next r' step) = next (Reach-Reach r r') step

  Step-threads : {s t : State crate.Packet} → Step crate q s t → t.threads ≡ s.threads
  Step-threads (take id packets bytes rest queue free e made) =
      ap (λ (t : State crate.Packet). t.threads) made
  Step-threads (lost id packets rest queue free e made) =
      ap (λ (t : State crate.Packet). t.threads) made
  Step-threads (propagate rest queue free made) = ap (λ (t : State crate.Packet). t.threads) made
  Step-threads (release before after id b held turn made) =
      ap (λ (t : State crate.Packet). t.threads) made

  Reach-threads : {s t : State crate.Packet} → Reach crate q s t → t.threads ≡ s.threads
  Reach-threads here = refl
  Reach-threads (next r step) = Step-threads step ∙ Reach-threads r

  -- The threads that wait can all dispatch, the first of them first.
  record Released (all jobs : List (ℕ × Block)) (s : State crate.Packet) : Type 0 where
    t : State crate.Packet
    reached : Reach crate q s t
    idle : t.waiting ≡ []
    holds : Inv crate q all jobs t

  release_all :
      (waiting all jobs : List (ℕ × Block)) (s : State crate.Packet)
      → s.waiting ≡ waiting
      → Inv crate q all jobs s
      → Released all jobs s
  release_all [] all jobs s e v = record { t = s; reached = here; idle = e; holds = v }
  release_all ((id, b) ∷ after) all jobs s e v =
      let order : Consecutive s.block_to_dispatch (((id, b) ∷ after) ++ jobs) =
        subst (λ l. Consecutive s.block_to_dispatch (l ++ jobs)) e v.order in
      let rest =
        release_all after all jobs
          (record s {
            waiting = after;
            block_to_dispatch = (s.block_to_dispatch + 1) % 256;
            to_dispatch = s.to_dispatch ++ some b ∷ [];
          })
          refl (release-Inv crate q after id b e v) in
      record {
        t = rest.t;
        reached = Reach-Reach (next here (release [] after id b e order.0 refl)) rest.reached;
        idle = rest.idle;
        holds = rest.holds;
      }

  -- All is dispatched.
  record Finished (all : List (ℕ × Block)) (s : State crate.Packet) : Type 0 where
    t : State crate.Packet
    reached : Reach crate q s t
    empty : t.for_decode ≡ []
    idle : t.waiting ≡ []
    holds : Inv crate q all [] t

  queue_of :
      (queue : List (Reassembled crate.Packet)) (id : ℕ) (b : Block) (jobs : List (ℕ × Block))
      → Decodes crate q queue ((id, b) ∷ jobs)
      → (packets : List crate.Packet) × (rest : List (Reassembled crate.Packet)) × (queue
          ≡ block id packets ∷ rest)
        × (decode crate q id packets ≡ some b)
  queue_of [] id b jobs d = absurd d
  queue_of (error ∷ queue) id b jobs d = absurd d
  queue_of (block j packets ∷ queue) id b jobs d = (
    packets,
    queue,
    ap (λ n. block n packets ∷ queue) d.0,
    ap (λ n. decode crate q n packets) (sym d.0) ∙ d.1,
  )

  empty_of : (queue : List (Reassembled crate.Packet)) → Decodes crate q queue [] → queue ≡ []
  empty_of [] d = refl
  empty_of (error ∷ queue) d = absurd d
  empty_of (block j packets ∷ queue) d = absurd d

  finish :
      (jobs all : List (ℕ × Block)) (s : State crate.Packet)
      → 0 < s.threads
      → s.waiting ≡ []
      → Inv crate q all jobs s
      → Finished all s
  finish [] all s live idle v = record {
    t = s;
    reached = here;
    empty = empty_of s.for_decode v.queue;
    idle = idle;
    holds = v;
  }
  finish ((id, b) ∷ jobs) all s live idle v =
      let (packets, left, e, d) = queue_of s.for_decode id b jobs v.queue in
      let free : length s.waiting < s.threads = omega (arith, ap (length {A = ℕ × Block}) idle) in
      let decodes : Decodes crate q left jobs =
        (subst (λ l. Decodes crate q l ((id, b) ∷ jobs)) e v.queue).2 in
      let held =
        release_all (s.waiting ++ (id, b) ∷ []) all jobs
          (record s { for_decode = left; waiting = s.waiting ++ (id, b) ∷ [] }) refl
          (take-Inv crate q id b left free decodes v) in
      let rest =
        finish jobs all held.t (omega (arith, live, Reach-threads held.reached)) held.idle
          held.holds in
      record {
        t = rest.t;
        reached =
            Reach-Reach (next here (take id packets b left e free d refl))
              (Reach-Reach held.reached rest.reached);
        empty = rest.empty;
        idle = rest.idle;
        holds = rest.holds;
      }

  -- Wherever up to 255 decoding threads, one at least, have got to: if the queued blocks can be
  -- decoded and are numbered from the counter on, there are further steps to a state where the
  -- queue is empty, no thread waits, and exactly the queued blocks have been dispatched, in order.
  pub decoders_finish :
      (threads id : ℕ) (queue : List (Reassembled crate.Packet)) (jobs : List (ℕ × Block))
      (s : State crate.Packet)
      → 0 < threads
      → threads ≤ 255
      → id < 256
      → Decodes crate q queue jobs
      → Consecutive id jobs
      → Reach crate q (fresh crate q threads id queue) s
      → (t : State crate.Packet) × Reach crate q s t
        × (t.for_decode ≡ [])
        × (t.waiting ≡ [])
        × (t.to_dispatch ≡ dispatched crate q jobs)
  decoders_finish threads id queue jobs s live few hid decodes order r =
      let (left, v) =
        Reach-Holds crate q (jobs, started crate q threads id queue jobs few hid decodes order) r in
      let held = release_all s.waiting jobs left s refl v in
      let done =
        finish left jobs held.t (omega (arith, live, Reach-threads held.reached, Reach-threads r))
          held.idle held.holds in
      (
        done.t,
        Reach-Reach held.reached done.reached,
        done.empty,
        done.idle,
        ended crate q [] done.holds done.empty done.idle,
      )
