-- ===== src/Receive/Dispatch/Routes.antt =====
-- The invariant of the channels in src/receive/dispatch.rs, and how a block is routed.
use mathlib.Core.Path.{subst}
use lidi.Prelude.{
  ◌⊎◌, ℕ, ◌<◌, ◌≡◌, ◌≢◌, refl, ap, sym, ◌∙◌, Option, none, some, Bool, true, false, List, [], ◌∷◌,
  ◌++◌, if◌then◌else◌, arith, eq→==, Bool-cases, inl, inr,
}
use lidi.Prelude.Assoc.{lookup, remove, lookup-insert, lookup-remove}
use lidi.Protocol.Block.{ClientId, Block}
use lidi.Receive.Dispatch.{Channel, State, init, send, open_transfer, close_transfer, route}

-- Channel `h` was handed to the clients' workers as one of client `i`.
abbrev pub Handed : ℕ → ℕ → List (ℕ × ℕ) → Type 0
Handed i h [] = ⊥
Handed i h (x ∷ l) = (x ≡ (i, h)) ⊎ Handed i h l

-- Active clients have channels of their own, and these and those handed out have been made.
pub record IsRouted (s : State) : Type 0 where
  pub bound : (i h : ℕ) → lookup i s.active_transfers ≡ some h → h < s.next
  pub apart :
      (i j h : ℕ)
      → lookup i s.active_transfers ≡ some h
      → lookup j s.active_transfers ≡ some h
      → i ≡ j
  pub known : (j k : ℕ) → Handed j k s.to_clients → k < s.next

pub Handed-append :
    (i h : ℕ) (l : List (ℕ × ℕ)) (x : ℕ × ℕ) → Handed i h l → Handed i h (l ++ x ∷ [])
Handed-append i h [] x e = absurd e
Handed-append i h (y ∷ l) x (inl e) = inl e
Handed-append i h (y ∷ l) x (inr e) = inr (Handed-append i h l x e)

pub Handed-last : (i h : ℕ) (l : List (ℕ × ℕ)) → Handed i h (l ++ (i, h) ∷ [])
Handed-last i h [] = inl refl
Handed-last i h (y ∷ l) = inr (Handed-last i h l)

pub Handed-inv :
    (i h : ℕ) (l : List (ℕ × ℕ)) (x : ℕ × ℕ)
    → Handed i h (l ++ x ∷ [])
    → Handed i h l ⊎ (x ≡ (i, h))
Handed-inv i h [] x (inl e) = inr e
Handed-inv i h [] x (inr e) = absurd e
Handed-inv i h (y ∷ l) x (inl e) = inl (inl e)
Handed-inv i h (y ∷ l) x (inr e) = elim (Handed-inv i h l x e) [
  | inl e' ↦ inl (inr e')
  | inr e' ↦ inr e'
]

-- Client `i` is active on channel `h`, on which `blocks` were sent.
pub record Serves (s : State) (i h : ℕ) (blocks : List Block) : Type 0 where
  pub routed : IsRouted s
  pub active : lookup i s.active_transfers ≡ some h
  pub connected : (s.channel h).is_open ≡ true
  pub log : (s.channel h).sent ≡ blocks
  pub handed : Handed i h s.to_clients
  pub owner : (j : ℕ) → Handed j h s.to_clients → j ≡ i

pub init-IsRouted : IsRouted init
unfolding lookup
init-IsRouted = record { bound = λ i h e. cc; apart = λ i j h e e'. cc; known = λ j k e. absurd e }

pub send-IsRouted : {s : State} (h : ℕ) (b : Block) → IsRouted s → IsRouted (send s h b)
send-IsRouted h b r = record { bound = r.bound; apart = r.apart; known = r.known }

remove-IsRouted :
    {s : State} (id : ClientId)
    → IsRouted s
    → IsRouted (record s { active_transfers = remove id s.active_transfers })
remove-IsRouted {s} id r = record {
  bound = λ i h e. ground (arith, lookup-remove id i s.active_transfers, r.bound i h);
  apart = λ i j h e e'. ground (
    arith,
    lookup-remove id i s.active_transfers,
    lookup-remove id j s.active_transfers,
    r.apart i j h,
  );
  known = r.known;
}

pub close_transfer-IsRouted :
    {s : State} (id : ClientId) (h : ℕ) → IsRouted s → IsRouted (close_transfer id h s)
unfolding close_transfer
close_transfer-IsRouted id h r =
    let q = remove-IsRouted id r in record { bound = q.bound; apart = q.apart; known = r.known }

pub open_transfer-IsRouted :
    {s : State} (id : ClientId) → IsRouted s → IsRouted (open_transfer id s)
unfolding open_transfer
open_transfer-IsRouted {s} id r = record {
  bound = λ i h e. ground (arith, lookup-insert id i s.next s.active_transfers, r.bound i h);
  apart = λ i j h e e'. ground (
    arith,
    lookup-insert id i s.next s.active_transfers,
    lookup-insert id j s.next s.active_transfers,
    r.apart i j h,
    r.bound i h,
    r.bound j h,
  );
  known = λ j k h. elim (Handed-inv j k s.to_clients (id, s.next) h) [
    | inl before ↦ omega (arith, r.known j k before)
    | inr new ↦ omega (arith, ap (λ (x : ℕ × ℕ). x.1) new)
  ];
}

pub route-IsRouted :
    {s : State} (will_end : Bool) (b : Block) (id : ClientId) (o : Option ℕ)
    → IsRouted s
    → IsRouted (route will_end b id s o)
route-IsRouted will_end b id none r = r
route-IsRouted {s} true b id (some h) r = elim (Bool-cases (s.channel h).is_open) [
  | inl e ↦
      subst
        (λ c. IsRouted (
          if c
          then close_transfer id h (send s h b)
          else record s { active_transfers = remove id s.active_transfers }))
        (sym e) (close_transfer-IsRouted id h (send-IsRouted h b r))
  | inr e ↦
      subst
        (λ c. IsRouted (
          if c
          then close_transfer id h (send s h b)
          else record s { active_transfers = remove id s.active_transfers }))
        (sym e) (remove-IsRouted id r)
]
route-IsRouted {s} false b id (some h) r = elim (Bool-cases (s.channel h).is_open) [
  | inl e ↦
      subst
        (λ c.
          IsRouted (
            if c then send s h b else record s { active_transfers = remove id s.active_transfers }))
        (sym e) (send-IsRouted h b r)
  | inr e ↦
      subst
        (λ c.
          IsRouted (
            if c then send s h b else record s { active_transfers = remove id s.active_transfers }))
        (sym e) (remove-IsRouted id r)
]

pub to_clients-route :
    (will_end : Bool) (b : Block) (j : ClientId) (s : State) (o : Option ℕ)
    → (route will_end b j s o).to_clients ≡ s.to_clients
unfolding close_transfer
to_clients-route will_end b j s none = refl
to_clients-route true b j s (some k) = ground arith
to_clients-route false b j s (some k) = ground arith

-- A block for the channel `h'` leaves client `i` on its channel `h` alone.
pub route-other :
    {s : State} {i h : ℕ} {blocks : List Block} (will_end : Bool) (b : Block) (j : ClientId)
    (o : Option ℕ)
    → lookup j s.active_transfers ≡ o
    → j ≢ i
    → Serves s i h blocks
    → Serves (route will_end b j s o) i h blocks
unfolding close_transfer
route-other {s} {i} {h} will_end b j none e ne v = v
route-other {s} {i} {h} will_end b j (some k) e ne v =
    let other : k ≢ h = λ same. ne (v.routed.apart j i k e (v.active ∙ ap some (sym same))) in
    record {
      routed = route-IsRouted will_end b j (some k) v.routed;
      active = ground (arith, v.active, lookup-remove j i s.active_transfers);
      connected = ground (arith, v.connected, other);
      log = ground (arith, v.log, other);
      handed = subst (Handed i h) (sym (to_clients-route will_end b j s (some k))) v.handed;
      owner =
          subst (λ l. (x : ℕ) → Handed x h l → x ≡ i)
            (sym (to_clients-route will_end b j s (some k))) v.owner;
    }

-- A block for an active client with an open channel.
pub route-open :
    (s : State) (b : Block) (i h : ℕ)
    → (s.channel h).is_open ≡ true
    → route false b i s (some h) ≡ send s h b
route-open s b i h e =
    ap (λ c. if c then send s h b else record s { active_transfers = remove i s.active_transfers })
      e

pub route-close :
    (s : State) (b : Block) (i h : ℕ)
    → (s.channel h).is_open ≡ true
    → route true b i s (some h) ≡ close_transfer i h (send s h b)
route-close s b i h e =
    ap
      (λ c.
        if c
        then close_transfer i h (send s h b)
        else record s { active_transfers = remove i s.active_transfers })
      e

sent_self :
    (s : State) (h : ℕ) (b : Block)
    → (send s h b).channel h ≡ record (s.channel h) { sent = (s.channel h).sent ++ b ∷ [] }
sent_self s h b =
    ap
      (λ c. if c then record (s.channel h) { sent = (s.channel h).sent ++ b ∷ [] } else s.channel h)
      (eq→== h h refl)

pub send-Serves :
    {s : State} {i h : ℕ} {blocks : List Block} (b : Block)
    → Serves s i h blocks
    → Serves (send s h b) i h (blocks ++ b ∷ [])
send-Serves {s} {i} {h} {blocks} b v = record {
  routed = send-IsRouted h b v.routed;
  active = v.active;
  connected = ap (λ (c : Channel). c.is_open) (sent_self s h b) ∙ v.connected;
  log = ap (λ (c : Channel). c.sent) (sent_self s h b) ∙ ap (λ l. l ++ b ∷ []) v.log;
  handed = v.handed;
  owner = v.owner;
}
