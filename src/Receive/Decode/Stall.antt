-- ===== src/Receive/Decode/Stall.antt =====
-- What src/receive/decode.rs does after a block that cannot be decoded.
use mathlib.Core.Path.{subst}
use lidi.Prelude.{
  ℕ, ◌+◌, ◌%◌, ◌<◌, ◌≡◌, ◌≢◌, refl, ap, sym, ◌∙◌, ◌⊎◌, inl, inr, Option, none, List, [], ◌∷◌, ◌++◌,
  length, arith, All, All-append, All-append_inv, append-nil,
}
use lidi.Protocol.Block.{Block}
use lidi.Protocol.Crate.{Raptorq}
use lidi.Protocol.RaptorQ.{RaptorQ, decode}
use lidi.Receive.{Reassembled, error, block}
use lidi.Receive.Decode.{State, Step, take, lost, propagate, release, Reach, here, next}
use lidi.Send.Encoding.InOrder.{somes, somes-append}

-- The blocks of a queue are numbered from `c` on; reports of losses have no number.
abbrev pub Follows : {P : Type 0} → ℕ → List (Reassembled P) → Type 0
Follows c [] = Unit
Follows c (error ∷ queue) = Follows c queue
Follows c (block id packets ∷ queue) = (id ≡ c) × Follows ((c + 1) % 256) queue

abbrev OtherTurn : {P : Type 0} → ℕ → Reassembled P → Type 0
OtherTurn c error = Unit
OtherTurn c (block id packets) = id ≢ c

Follows-OtherTurn :
    {P : Type 0} (c k : ℕ) (queue : List (Reassembled P))
    → c < 256
    → k + length queue < 255
    → Follows ((c + 1 + k) % 256) queue
    → All (OtherTurn c) queue
Follows-OtherTurn c k [] hc hk h = tt
Follows-OtherTurn c k (error ∷ queue) hc hk h = (tt, Follows-OtherTurn c k queue hc (omega arith) h)
Follows-OtherTurn c k (block id packets ∷ queue) hc hk h = (
  omega (arith, h.0),
  Follows-OtherTurn c (k + 1) queue hc (omega arith)
      (subst (λ n. Follows n queue) (omega arith) h.1),
)

append_cons-ne-nil :
    {A : Type 0} (before : List A) (a : A) (after : List A) → before ++ a ∷ after ≢ []
append_cons-ne-nil [] a after e = cc
append_cons-ne-nil (b ∷ before) a after e = cc

module _ (crate : Raptorq) (q : RaptorQ) where
  -- No block that is held or queued has the turn, and no block has been dispatched since.
  record Stalled (sent : List Block) (c : ℕ) (s : State crate.Packet) : Type 0 where
    turn : s.block_to_dispatch ≡ c
    held : All (λ job. job.0 ≢ c) s.waiting
    queued : All (OtherTurn c) s.for_decode
    dispatched : somes s.to_dispatch ≡ sent

  somes-none : (l : List (Option Block)) → somes (l ++ none ∷ []) ≡ somes l
  somes-none l = somes-append l (none ∷ []) ∙ append-nil (somes l)

  Step-Stalled :
      {sent : List Block} {c : ℕ} {s t : State crate.Packet}
      → Step crate q s t
      → Stalled sent c s
      → Stalled sent c t
  Step-Stalled {sent} {c} {s} (take id packets bytes rest queue free e made) v =
      let all = subst (All (OtherTurn c)) queue v.queued in
      subst (Stalled sent c) (sym made) (record {
        turn = v.turn;
        held = All-append (λ job. job.0 ≢ c) s.waiting ((id, bytes) ∷ []) v.held (all.0, tt);
        queued = all.1;
        dispatched = v.dispatched;
      })
  Step-Stalled {sent} {c} {s} (lost id packets rest queue free e made) v =
      subst (Stalled sent c) (sym made) (record {
        turn = v.turn;
        held = v.held;
        queued = (subst (All (OtherTurn c)) queue v.queued).1;
        dispatched = somes-none s.to_dispatch ∙ v.dispatched;
      })
  Step-Stalled {sent} {c} {s} (propagate rest queue free made) v =
      subst (Stalled sent c) (sym made) (record {
        turn = v.turn;
        held = v.held;
        queued = (subst (All (OtherTurn c)) queue v.queued).1;
        dispatched = somes-none s.to_dispatch ∙ v.dispatched;
      })
  Step-Stalled {sent} {c} {s} (release before after id b held e made) v = absurd (
      (All-append_inv (λ job. job.0 ≢ c) before ((id, b) ∷ after)
          (subst (All (λ job. job.0 ≢ c)) held v.held)).1.0
        (e ∙ v.turn))

  -- Where the loss happens: the block whose turn it is is at the head of the queue, and cannot be
  -- decoded.
  pub record Losing (s : State crate.Packet) (packets : List crate.Packet)
      (rest : List (Reassembled crate.Packet)) : Type 0 where
    pub turn : s.block_to_dispatch < 256
    pub idle : s.waiting ≡ []
    pub head : s.for_decode ≡ block s.block_to_dispatch packets ∷ rest
    pub broken : decode crate q s.block_to_dispatch packets ≡ none
    pub follows : Follows ((s.block_to_dispatch + 1) % 256) rest
    pub few : length rest < 255

  first-Stalled :
      {s t : State crate.Packet} {packets : List crate.Packet}
      {rest : List (Reassembled crate.Packet)}
      → Losing s packets rest
      → Step crate q s t
      → Stalled (somes s.to_dispatch) s.block_to_dispatch t
  first-Stalled h (take id packets' bytes rest' queue free e made) = cc (queue, e, h.head, h.broken)
  first-Stalled h (propagate rest' queue free made) = cc (queue, h.head)
  first-Stalled h (release before after id b held e made) =
      absurd (append_cons-ne-nil before (id, b) after (sym held ∙ h.idle))
  first-Stalled {s} {rest = rest} h (lost id packets' rest' queue free e made) =
      let same : rest' ≡ rest = cc (queue, h.head) in
      let c = s.block_to_dispatch in
      subst (Stalled (somes s.to_dispatch) c) (sym made) (record {
        turn = refl;
        held = subst (All (λ job. job.0 ≢ c)) (sym h.idle) tt;
        queued = subst (All (OtherTurn c)) (sym same) (
            Follows-OtherTurn c 0 rest h.turn (omega (arith, h.few))
              (subst (λ n. Follows n rest) (omega arith) h.follows));
        dispatched = somes-none s.to_dispatch;
      })

  Reach-Stalled :
      {s t : State crate.Packet} {packets : List crate.Packet}
      {rest : List (Reassembled crate.Packet)}
      → Losing s packets rest
      → Reach crate q s t
      → (t ≡ s) ⊎ Stalled (somes s.to_dispatch) s.block_to_dispatch t
  Reach-Stalled h here = inl refl
  Reach-Stalled {s} {t} h (next r step) = elim (Reach-Stalled h r) [
    | inl e ↦ inr (first-Stalled h (subst (λ u. Step crate q u t) e step))
    | inr v ↦ inr (Step-Stalled step v)
  ]

  -- Once the block whose turn it is cannot be decoded, none of the up to 254 blocks behind it is
  -- ever dispatched, whatever the threads do, until the counter is set by a reset.
  pub lost_block_stalls :
      (s t : State crate.Packet) (packets : List crate.Packet)
      (rest : List (Reassembled crate.Packet))
      → Losing s packets rest
      → Reach crate q s t
      → somes t.to_dispatch ≡ somes s.to_dispatch
  lost_block_stalls s t packets rest h r = elim (Reach-Stalled h r) [
    | inl e ↦ ap (λ (u : State crate.Packet). somes u.to_dispatch) e
    | inr v ↦ v.dispatched
  ]
