-- ===== src/Send/Encoding/InOrder.antt =====
-- The order in which the encoders of src/send/encoding.rs send packets.
use lidi.Prelude.{
  ℕ, suc, ◌+◌, ◌%◌, ◌≤◌, ◌<◌, ◌≡◌, refl, ap, sym, ◌∙◌, Option, none, some, List, [], ◌∷◌, ◌++◌,
  length, map, arith, append_assoc, append-nil, length-append,
}
use mathlib.Core.Path.{subst}
use lidi.Protocol.Block.{Block}
use lidi.Protocol.Crate.{Raptorq}
use lidi.Protocol.RaptorQ.{RaptorQ, encode}
use lidi.Send.Encoding.{State, Step, take, stop, release, Reach, here, next}
use lidi.Turn.{Consecutive, only_first, numbered, numbered-Consecutive}

-- The messages that are not end marks.
abbrev pub somes {ℓ} : {A : Type ℓ} → List (Option A) → List A
somes [] = []
somes (none ∷ l) = somes l
somes (some a ∷ l) = a ∷ somes l

pub somes-append : {A : Type 0} (xs ys : List (Option A)) → somes (xs ++ ys) ≡ somes xs ++ somes ys
somes-append [] ys = refl
somes-append (none ∷ xs) ys = somes-append xs ys
somes-append (some a ∷ xs) ys = ap (λ l. a ∷ l) (somes-append xs ys)

pub somes-map-some : {A : Type 0} (l : List A) → somes (map some l) ≡ l
somes-map-some [] = refl
somes-map-some (a ∷ l) = ap (λ r. a ∷ r) (somes-map-some l)

module _ (crate : Raptorq) (q : RaptorQ) where
  abbrev pub coded : List (ℕ × Block) → List (List crate.Packet)
  coded = map (λ job. encode crate q job.0 job.1)

  -- The blocks not yet sent are numbered from the turn on, and with those sent they are `all`.
  pub record Inv (all : List (ℕ × Block)) (s : State crate.Packet) : Type 0 where
    pub turn : s.block_to_send < 256
    pub room : length s.waiting ≤ s.threads
    pub few : s.threads ≤ 255
    pub order : Consecutive s.block_to_send (s.waiting ++ somes s.for_encoding)
    pub whole : somes s.to_send ++ coded (s.waiting ++ somes s.for_encoding) ≡ coded all

  take-Inv :
      {all : List (ℕ × Block)} {s : State crate.Packet} (id : ℕ) (block : Block)
      (rest : List (Option (ℕ × Block)))
      → s.for_encoding ≡ some (id, block) ∷ rest
      → length s.waiting < s.threads
      → Inv all s
      → Inv all (record s { for_encoding = rest; waiting = s.waiting ++ (id, block) ∷ [] })
  take-Inv {s = s} id block rest queue free v = record {
    turn = v.turn;
    room = omega (arith, length-append s.waiting ((id, block) ∷ []));
    few = v.few;
    order = subst (Consecutive s.block_to_send) (sym same) v.order;
    whole = ap (λ l. somes s.to_send ++ coded l) same ∙ v.whole;
  }
    where
      same : (s.waiting ++ (id, block) ∷ []) ++ somes rest ≡ s.waiting ++ somes s.for_encoding
      same =
          append_assoc s.waiting ((id, block) ∷ []) (somes rest)
          ∙ ap (λ l. s.waiting ++ somes l) (sym queue)

  stop-Inv :
      {all : List (ℕ × Block)} {s : State crate.Packet} (rest : List (Option (ℕ × Block)))
      (others : ℕ)
      → s.for_encoding ≡ none ∷ rest
      → length s.waiting < s.threads
      → s.threads ≡ suc others
      → Inv all s
      → Inv all
          (record s { for_encoding = rest; threads = others; to_send = s.to_send ++ none ∷ [] })
  stop-Inv {s = s} rest others queue free live v = record {
    turn = v.turn;
    room = omega arith;
    few = omega (arith, v.few);
    order = subst (λ l. Consecutive s.block_to_send (s.waiting ++ somes l)) queue v.order;
    whole =
        ap (λ l. l ++ coded (s.waiting ++ somes rest))
          (somes-append s.to_send (none ∷ []) ∙ append-nil (somes s.to_send))
        ∙ ap (λ l. somes s.to_send ++ coded (s.waiting ++ somes l)) (sym queue)
        ∙ v.whole;
  }

  -- The thread whose wait is over holds the first of the blocks that were taken.
  held_first :
      {all : List (ℕ × Block)} {s : State crate.Packet} (before after : List (ℕ × Block)) (id : ℕ)
      (block : Block)
      → s.waiting ≡ before ++ (id, block) ∷ after
      → id ≡ s.block_to_send
      → Inv all s
      → before ≡ []
  held_first {s = s} before after id block held turn v =
      only_first s.block_to_send before (after ++ somes s.for_encoding) id block v.turn
        (omega (
          arith,
          v.room,
          v.few,
          ap (length {A = ℕ × Block}) held,
          length-append before ((id, block) ∷ after),
        ))
        (subst (Consecutive s.block_to_send)
          (ap (λ l. l ++ somes s.for_encoding) held
            ∙ append_assoc before ((id, block) ∷ after) (somes s.for_encoding))
          v.order)
        turn

  release-Inv :
      {all : List (ℕ × Block)} {s : State crate.Packet} (after : List (ℕ × Block)) (id : ℕ)
      (block : Block)
      → s.waiting ≡ (id, block) ∷ after
      → Inv all s
      → Inv all (record s {
        waiting = after;
        block_to_send = (s.block_to_send + 1) % 256;
        to_send = s.to_send ++ some (encode crate q id block) ∷ [];
      })
  release-Inv {s = s} after id block held v = record {
    turn = omega arith;
    room = omega (arith, v.room, ap (length {A = ℕ × Block}) held);
    few = v.few;
    order = (subst (λ l. Consecutive s.block_to_send (l ++ somes s.for_encoding)) held v.order).1;
    whole =
        ap (λ l. l ++ coded (after ++ somes s.for_encoding))
          (somes-append s.to_send (some (encode crate q id block) ∷ []))
        ∙ append_assoc (somes s.to_send) (encode crate q id block ∷ [])
            (coded (after ++ somes s.for_encoding))
        ∙ ap (λ l. somes s.to_send ++ coded (l ++ somes s.for_encoding)) (sym held)
        ∙ v.whole;
  }

  Step-Inv :
      {all : List (ℕ × Block)} {s t : State crate.Packet} → Step crate q s t → Inv all s → Inv all t
  Step-Inv {all} (take id block rest queue free e) v =
      subst (Inv all) (sym e) (take-Inv id block rest queue free v)
  Step-Inv {all} (stop rest others queue free live e) v =
      subst (Inv all) (sym e) (stop-Inv rest others queue free live v)
  Step-Inv {all} {s} (release before after id block held turn e) v =
      let first = held_first before after id block held turn v in
      subst (Inv all)
        (ap
            (λ l. record s {
              waiting = l ++ after;
              block_to_send = (s.block_to_send + 1) % 256;
              to_send = s.to_send ++ some (encode crate q id block) ∷ [];
            })
            (sym first)
          ∙ sym e)
        (release-Inv after id block (held ∙ ap (λ l. l ++ (id, block) ∷ after) first) v)

  pub Reach-Inv :
      {all : List (ℕ × Block)} {s t : State crate.Packet}
      → Inv all s
      → Reach crate q s t
      → Inv all t
  Reach-Inv v here = v
  Reach-Inv v (next r step) = Step-Inv step (Reach-Inv v r)

  -- The encoders before the first block.
  abbrev pub fresh : ℕ → List Block → State crate.Packet
  fresh threads blocks = record {
    for_encoding = map some (numbered 0 blocks);
    waiting = [];
    threads = threads;
    block_to_send = 0;
    to_send = [];
  }

  pub fresh-Inv :
      (threads : ℕ) (blocks : List Block)
      → threads ≤ 255
      → Inv (numbered 0 blocks) (fresh threads blocks)
  fresh-Inv threads blocks h = record {
    turn = omega arith;
    room = omega arith;
    few = h;
    order =
        subst (Consecutive 0) (sym (somes-map-some (numbered 0 blocks)))
          (numbered-Consecutive 0 blocks);
    whole = ap coded (somes-map-some (numbered 0 blocks));
  }

  -- In whatever order up to 255 threads run, what has been sent is at every moment the encodings of
  -- the first blocks in order, each under its own number, and the rest waits or is queued.
  pub encoders_in_order :
      (threads : ℕ) (blocks : List Block) (s : State crate.Packet)
      → threads ≤ 255
      → Reach crate q (fresh threads blocks) s
      → somes s.to_send ++ coded (s.waiting ++ somes s.for_encoding) ≡ coded (numbered 0 blocks)
  encoders_in_order threads blocks s h r = (Reach-Inv (fresh-Inv threads blocks h) r).whole

  -- Once no thread of up to 255 holds a block and none is queued, exactly the encodings of all blocks
  -- have been sent, in order, each under its own number.
  pub encoders_complete :
      (threads : ℕ) (blocks : List Block) (s : State crate.Packet)
      → threads ≤ 255
      → Reach crate q (fresh threads blocks) s
      → s.waiting ++ somes s.for_encoding ≡ []
      → somes s.to_send ≡ coded (numbered 0 blocks)
  encoders_complete threads blocks s h r nothing =
      sym (append-nil (somes s.to_send))
      ∙ ap (λ l. somes s.to_send ++ coded l) (sym nothing)
      ∙ encoders_in_order threads blocks s h r
