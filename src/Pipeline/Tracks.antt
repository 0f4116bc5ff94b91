-- ===== src/Pipeline/Tracks.antt =====
-- Where one client stands among those that src/send/server.rs serves.

use lidi.Prelude.{
  ◌^◌, ◌<◌, ◌≡◌, ◌≢◌, ◌⊎◌, inl, inr, refl, Option, none, some, false, List, [], ◌∷◌, ◌++◌, All,
  All-append, All-append_inv,
}
use lidi.Protocol.Block.{Block, ClientId}
use lidi.Send.Parallel.{Serving}
use lidi.Pipeline.Owned.{Owned}

-- A client that is not `i`, and the client `i` with what it has still to queue.
abbrev pub Other : ClientId → Serving → Type 0
Other i w = (w.id ≢ i) × (w.id < 2 ^ 32) × All (Owned w.id) w.left

abbrev pub Mine : ClientId → List Block → Serving → Type 0
Mine i left w = (w.id ≡ i) × (w.left ≡ left) × (w.failed ≡ false)

-- The client `i` is served once.
abbrev pub Once : ClientId → List Block → List Serving → Type 0
Once i left [] = ⊥
Once i left (w ∷ ws) = (Mine i left w × All (Other i) ws) ⊎ (Other i w × Once i left ws)

-- Not served, or served once with these blocks left.
abbrev pub Track : ClientId → Option (List Block) → List Serving → Type 0
Track i none ws = All (Other i) ws
Track i (some left) ws = Once i left ws

-- One client among those that are served: another one, or `i`; with what follows if it changes or goes.
pub record Apart (i : ClientId) (slot : Option (List Block)) (before after : List Serving)
    (w : Serving) : Type 0 where
  pub other : Other i w
  pub changed : (w' : Serving) → Other i w' → Track i slot (before ++ w' ∷ after)
  pub gone : Track i slot (before ++ after)

pub record Same (i : ClientId) (slot : Option (List Block)) (before after : List Serving)
    (w : Serving) : Type 0 where
  pub left : List Block
  pub served : slot ≡ some left
  pub mine : Mine i left w
  pub changed :
      (w' : Serving) (left' : List Block) → Mine i left' w' → Once i left' (before ++ w' ∷ after)
  pub gone : All (Other i) (before ++ after)

split_none :
    (i : ClientId) (before after : List Serving) (w : Serving)
    → All (Other i) (before ++ w ∷ after)
    → Apart i none before after w
split_none i before after w h =
    let (a, b) = All-append_inv (Other i) before (w ∷ after) h in
    record {
      other = b.0;
      changed = λ w' o. All-append (Other i) before (w' ∷ after) a (o, b.1);
      gone = All-append (Other i) before after a b.1;
    }

split_first :
    (i : ClientId) (left : List Block) (before after : List Serving) (w : Serving)
    → Once i left (before ++ w ∷ after)
    → Apart i (some left) before after w ⊎ Same i (some left) before after w
split_first i left [] after w (inl (m, others)) = inr (record {
  left = left;
  served = refl;
  mine = m;
  changed = λ w' left' m'. inl (m', others);
  gone = others;
})
split_first i left [] after w (inr (o, once)) =
    inl (record { other = o; changed = λ w' o'. inr (o', once); gone = once })
split_first i left (v ∷ before) after w (inl (m, others)) =
    let (a, b) = All-append_inv (Other i) before (w ∷ after) others in
    inl (record {
      other = b.0;
      changed = λ w' o. inl (m, All-append (Other i) before (w' ∷ after) a (o, b.1));
      gone = inl (m, All-append (Other i) before after a b.1);
    })
split_first i left (v ∷ before) after w (inr (o, once)) =
    elim (split_first i left before after w once) [
      | inl p ↦ inl (record {
        other = p.other;
        changed = λ w' o'. inr (o, p.changed w' o');
        gone = inr (o, p.gone);
      })
      | inr p ↦ inr (record {
        left = p.left;
        served = p.served;
        mine = p.mine;
        changed = λ w' left' m'. inr (o, p.changed w' left' m');
        gone = (o, p.gone);
      })
    ]

pub split :
    (i : ClientId) (slot : Option (List Block)) (before after : List Serving) (w : Serving)
    → Track i slot (before ++ w ∷ after)
    → Apart i slot before after w ⊎ Same i slot before after w
split i none before after w h = inl (split_none i before after w h)
split i (some left) before after w h = split_first i left before after w h

-- One more client that is not `i`, and the client `i` itself.
pub join_front :
    (i : ClientId) (slot : Option (List Block)) (ws : List Serving) (w : Serving)
    → Track i slot ws
    → Other i w
    → Track i slot (ws ++ w ∷ [])
join_front i none ws w h o = All-append (Other i) ws (w ∷ []) h (o, tt)
join_front i (some left) [] w h o = absurd h
join_front i (some left) (v ∷ ws) w (inl (m, others)) o =
    inl (m, All-append (Other i) ws (w ∷ []) others (o, tt))
join_front i (some left) (v ∷ ws) w (inr (p, once)) o =
    inr (p, join_front i (some left) ws w once o)

pub join_last :
    (i : ClientId) (left : List Block) (ws : List Serving) (w : Serving)
    → All (Other i) ws
    → Mine i left w
    → Once i left (ws ++ w ∷ [])
join_last i left [] w h m = inl (m, tt)
join_last i left (v ∷ ws) w h m = inr (h.0, join_last i left ws w h.1 m)
