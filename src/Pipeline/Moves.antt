-- ===== src/Pipeline/Moves.antt =====
-- What one move of a worker of src/send/server.rs does to the blocks of one client.
use mathlib.Core.Path.{subst}
use lidi.Prelude.{
  ℕ, ◌≤◌, ◌≡◌, ◌≢◌, inl, inr, refl, ap, sym, ◌∙◌, Option, none, some, Bool, true, List, [], ◌∷◌,
  ◌++◌, All, All-append, All-append_inv, arith, append_assoc, append-nil,
}
use lidi.Prelude.Outcome.{ok}
use lidi.Protocol.RaptorQ.{RaptorQ}
use lidi.Protocol.Block.{Block, ClientId, abort, new, serialize_overhead}
use lidi.Stream.{Reader}
use lidi.Send.Parallel.{Serving, State, admitted}
use lidi.Send.Encoding.InOrder.{somes, somes-append}
use lidi.Pipeline.Among.{Among}
use lidi.Pipeline.Owned.{Owned, Reads-Owned, Among-join, Among-pass}
use lidi.Protocol.Block.RoundTrip.{new-Reads}
use lidi.Pipeline.Room.{Room}
use lidi.Pipeline.Tracks.{Track, split, join_front}

-- A block of another client.
abbrev pub Elsewhere : ClientId → Block → Type 0
Elsewhere i b = (j : ClientId) × Owned j b × (j ≢ i)

abbrev pub rest : Option (List Block) → List Block
rest none = []
rest (some left) = left

-- What has been queued of the client `i`, and what it has still to queue, are `blocks`.
pub record Inv (i : ClientId) (blocks : List Block) (slot : Option (List Block)) (sent : List Block)
    (s : State) : Type 0 where
  pub serving : Track i slot s.serving
  pub queued : Among i sent (somes s.to_ordering)
  pub whole : sent ++ rest slot ≡ blocks
  pub aborts : All (Elsewhere i) s.aborting

-- After a step; a client that is not served is not served because of it.
pub record After (i : ClientId) (blocks : List Block) (slot : Option (List Block)) (t : State)
    : Type 0 where
  pub slot' : Option (List Block)
  pub sent' : List Block
  pub inv : Inv i blocks slot' sent' t
  pub quiet : slot ≡ none → slot' ≡ none

pub Among-pass_some :
    {i : ClientId} {mine : List Block} (queue : List (Option Block)) (b : Block)
    → Elsewhere i b
    → Among i mine (somes queue)
    → Among i mine (somes (queue ++ some b ∷ []))
Among-pass_some {i} {mine} queue b (j, o, ne) a =
    subst (Among i mine) (sym (somes-append queue (some b ∷ []))) (Among-pass b j o ne a)

Among-join_some :
    {i : ClientId} {mine : List Block} (queue : List (Option Block)) (b : Block)
    → Among i mine (somes queue)
    → Among i (mine ++ b ∷ []) (somes (queue ++ some b ∷ []))
Among-join_some {i} {mine} queue b a =
    subst (Among i (mine ++ b ∷ [])) (sym (somes-append queue (some b ∷ []))) (Among-join b a)

module _ (i : ClientId) where
  pub same_slot :
      {blocks sent : List Block} {slot : Option (List Block)} {t : State}
      → Inv i blocks slot sent t
      → After i blocks slot t
  same_slot {sent = sent} {slot = slot} v = record {
    slot' = slot;
    sent' = sent;
    inv = v;
    quiet = λ e. e;
  }

  pub admit-After :
      {blocks sent : List Block} {slot : Option (List Block)} {s : State}
      (before after : List Reader) (client : Reader) (free : ℕ) (queue : List Block) (failed : Bool)
      → s.waiting ≡ before ++ client ∷ after
      → All (Owned s.counter) queue
      → s.counter ≢ i
      → Room s
      → Inv i blocks slot sent s
      → After i blocks slot (admitted s (before ++ after) free queue failed)
  admit-After {slot = slot} {s = s} before after client free queue failed e owned ne room v =
      same_slot (record {
        serving =
            join_front i slot s.serving (record { id = s.counter; left = queue; failed = failed })
              v.serving (ne, omega (arith, room), owned);
        queued = v.queued;
        whole = v.whole;
        aborts = v.aborts;
      })

  pub put-After :
      {blocks sent : List Block} {slot : Option (List Block)} {s : State}
      (before after : List Serving) (w : Serving) (b : Block) (left : List Block)
      → s.serving ≡ before ++ w ∷ after
      → w.left ≡ b ∷ left
      → Inv i blocks slot sent s
      → After i blocks slot (record s {
        serving = before ++ record w { left = left } ∷ after;
        to_ordering = s.to_ordering ++ some b ∷ [];
      })
  put-After {blocks} {sent} {slot} {s} before after w b left e el v =
      elim (split i slot before after w (subst (Track i slot) e v.serving)) [
        | inl p ↦
            let owned = subst (All (Owned w.id)) el p.other.2 in
            same_slot (record {
              serving = p.changed (record w { left = left }) (p.other.0, p.other.1, owned.1);
              queued = Among-pass_some s.to_ordering b (w.id, owned.0, p.other.0) v.queued;
              whole = v.whole;
              aborts = v.aborts;
            })
        | inr p ↦
            let same : p.left ≡ b ∷ left = sym p.mine.1 ∙ el in
            record {
              slot' = some left;
              sent' = sent ++ b ∷ [];
              inv = record {
                serving = p.changed (record w { left = left }) left (p.mine.0, refl, p.mine.2);
                queued = Among-join_some s.to_ordering b v.queued;
                whole =
                    append_assoc sent (b ∷ []) left
                    ∙ ap (λ l. sent ++ l) (sym same)
                    ∙ ap (λ l. sent ++ rest l) (sym p.served)
                    ∙ v.whole;
                aborts = v.aborts;
              };
              quiet = λ none_left. cc (p.served, none_left);
            }
      ]

  -- A client goes.
  pub gone-After :
      {blocks sent : List Block} {slot : Option (List Block)} {s : State}
      (before after : List Serving) (w : Serving) (permits idle : ℕ)
      → s.serving ≡ before ++ w ∷ after
      → w.left ≡ []
      → Inv i blocks slot sent s
      → After i blocks slot (record s { serving = before ++ after; permits = permits; idle = idle })
  gone-After {blocks} {sent} {slot} {s} before after w permits idle e el v =
      elim (split i slot before after w (subst (Track i slot) e v.serving)) [
        | inl p ↦
            same_slot
              (record { serving = p.gone; queued = v.queued; whole = v.whole; aborts = v.aborts })
        | inr p ↦
            let same : p.left ≡ [] = sym p.mine.1 ∙ el in
            record {
              slot' = none;
              sent' = sent;
              inv = record {
                serving = p.gone;
                queued = v.queued;
                whole =
                    ap (λ l. sent ++ l) (sym same)
                    ∙ ap (λ l. sent ++ rest l) (sym p.served)
                    ∙ v.whole;
                aborts = v.aborts;
              };
              quiet = λ _. refl;
            }
      ]

  pub fail-After :
      {blocks sent : List Block} {slot : Option (List Block)} {s : State} (capacity : ℕ → ℕ → ℕ)
      (q : RaptorQ) (before after : List Serving) (w : Serving) (b : Block) (permits : ℕ)
      → serialize_overhead ≤ q.transfer_length
      → s.serving ≡ before ++ w ∷ after
      → w.failed ≡ true
      → new capacity abort q w.id none ≡ ok b
      → Inv i blocks slot sent s
      → After i blocks slot (record s {
        serving = before ++ after;
        permits = permits;
        aborting = s.aborting ++ b ∷ [];
      })
  fail-After {blocks} {sent} {slot} {s} capacity q before after w b permits overhead e failed made
        v =
      elim (split i slot before after w (subst (Track i slot) e v.serving)) [
        | inl p ↦
            let reads = new-Reads capacity abort q w.id none b overhead p.other.1 made in
            same_slot (record {
              serving = p.gone;
              queued = v.queued;
              whole = v.whole;
              aborts =
                  All-append (Elsewhere i) s.aborting (b ∷ []) v.aborts
                    ((w.id, Reads-Owned reads, p.other.0), tt);
            })
        | inr p ↦ cc (p.mine.2, failed)
      ]

  pub abort-After :
      {blocks sent : List Block} {slot : Option (List Block)} {s : State}
      (before after : List Block) (b : Block) (idle : ℕ)
      → s.aborting ≡ before ++ b ∷ after
      → Inv i blocks slot sent s
      → After i blocks slot (record s {
        aborting = before ++ after;
        idle = idle;
        to_ordering = s.to_ordering ++ some b ∷ [];
      })
  abort-After {s = s} before after b idle e v =
      let (l, r) =
        All-append_inv (Elsewhere i) before (b ∷ after) (subst (All (Elsewhere i)) e v.aborts) in
      same_slot (record {
        serving = v.serving;
        queued = Among-pass_some s.to_ordering b r.0 v.queued;
        whole = v.whole;
        aborts = All-append (Elsewhere i) before after l r.1;
      })

  pub sent_all :
      {blocks sent : List Block} {slot : Option (List Block)} {s : State}
      → Inv i blocks slot sent s
      → slot ≡ none
      → Inv i blocks none blocks s
  sent_all {blocks} {sent} {slot} {s} v e =
      let same : sent ≡ blocks =
        sym (append-nil sent) ∙ ap (λ l. sent ++ rest l) (sym e) ∙ v.whole in
      record {
        serving = subst (λ l. Track i l s.serving) e v.serving;
        queued = subst (λ l. Among i l (somes s.to_ordering)) same v.queued;
        whole = append-nil blocks;
        aborts = v.aborts;
      }
