-- ===== src/Receive/Dispatch/Workers.antt =====
-- What the clients' workers do between the rounds of src/receive/dispatch.rs leaves what was sent.
use mathlib.Core.Path.{subst}
use lidi.Prelude.{
  ℕ, ◌≡◌, ◌≢◌, ap, sym, ◌∙◌, true, List, [], ◌∷◌, arith, Bool-cases, inl, inr, ◌==◌, ◌&&◌, ◌||◌,
}
use lidi.Prelude.Assoc.{lookup}
use lidi.Protocol.Block.{Block}
use lidi.Receive.Dispatch.{State, taken_on, dropped_on, is_handed}
use lidi.Receive.Dispatch.Routes.{IsRouted, Handed, Serves}
use lidi.Receive.Dispatch.Blocks.{Retired}

sent-taken : (s : State) (h k : ℕ) → ((taken_on k s).channel h).sent ≡ (s.channel h).sent
sent-taken s h k = ground arith

open-taken : (s : State) (h k : ℕ) → ((taken_on k s).channel h).is_open ≡ (s.channel h).is_open
open-taken s h k = ground arith

pub taken_on-IsRouted : {s : State} (k : ℕ) → IsRouted s → IsRouted (taken_on k s)
taken_on-IsRouted k r = record { bound = r.bound; apart = r.apart; known = r.known }

pub taken_on-Serves :
    {s : State} {i h : ℕ} {blocks : List Block} (k : ℕ)
    → Serves s i h blocks
    → Serves (taken_on k s) i h blocks
taken_on-Serves {s} {i} {h} k v = record {
  routed = taken_on-IsRouted k v.routed;
  active = v.active;
  connected = open-taken s h k ∙ v.connected;
  log = sent-taken s h k ∙ v.log;
  handed = v.handed;
  owner = v.owner;
}

is_handed-Handed : (j k : ℕ) (l : List (ℕ × ℕ)) → is_handed j k l ≡ true → Handed j k l
is_handed-Handed j k [] e = cc
is_handed-Handed j k ((i, h) ∷ l) e = elim (Bool-cases (j == i && k == h)) [
  | inl same ↦ inl (ground (arith, same))
  | inr differ ↦ inr (is_handed-Handed j k l (sym (ap (λ c. c || is_handed j k l) differ) ∙ e))
]

sent-dropped : (s : State) (j h k : ℕ) → ((dropped_on j k s).channel h).sent ≡ (s.channel h).sent
sent-dropped s j h k = ground arith

open-dropped :
    (s : State) (j h k : ℕ)
    → (is_handed j k s.to_clients ≡ true → k ≢ h)
    → ((dropped_on j k s).channel h).is_open ≡ (s.channel h).is_open
open-dropped s j h k other = elim (Bool-cases (is_handed j k s.to_clients)) [
  | inl e ↦ let ne = other e in ground (arith, e, ne)
  | inr e ↦ ground (arith, e)
]

pub dropped_on-next : (j k : ℕ) (s : State) → (dropped_on j k s).next ≡ s.next
dropped_on-next j k s = ground arith

to_clients-dropped : (j k : ℕ) (s : State) → (dropped_on j k s).to_clients ≡ s.to_clients
to_clients-dropped j k s = ground arith

active-dropped : (j k : ℕ) (s : State) → (dropped_on j k s).active_transfers ≡ s.active_transfers
active-dropped j k s = ground arith

pub dropped_on-IsRouted : {s : State} (j k : ℕ) → IsRouted s → IsRouted (dropped_on j k s)
dropped_on-IsRouted {s} j k r = elim (Bool-cases (is_handed j k s.to_clients)) [
  | inl e ↦ rw e (record { bound = r.bound; apart = r.apart; known = r.known })
  | inr e ↦ rw e r
]

-- The end that the worker of another client has got is that of another channel.
pub dropped_on-Serves :
    {s : State} {i h : ℕ} {blocks : List Block} (j k : ℕ)
    → j ≢ i
    → Serves s i h blocks
    → Serves (dropped_on j k s) i h blocks
dropped_on-Serves {s} {i} {h} j k ne v =
    let other : is_handed j k s.to_clients ≡ true → k ≢ h = λ e same. ne (
      v.owner j
        (subst (λ n. Handed j n s.to_clients) same (is_handed-Handed j k s.to_clients e))) in
    record {
      routed = dropped_on-IsRouted j k v.routed;
      active = ap (lookup i) (active-dropped j k s) ∙ v.active;
      connected = open-dropped s j h k other ∙ v.connected;
      log = sent-dropped s j h k ∙ v.log;
      handed = subst (Handed i h) (sym (to_clients-dropped j k s)) v.handed;
      owner = subst (λ l. (x : ℕ) → Handed x h l → x ≡ i) (sym (to_clients-dropped j k s)) v.owner;
    }

pub taken_on-Retired :
    {s : State} {i h : ℕ} {blocks : List Block} (k : ℕ)
    → Retired s i h blocks
    → Retired (taken_on k s) i h blocks
taken_on-Retired {s} {i} {h} k v = record {
  routed = taken_on-IsRouted k v.routed;
  made = v.made;
  unused = v.unused;
  log = sent-taken s h k ∙ v.log;
  handed = v.handed;
}

pub dropped_on-Retired :
    {s : State} {i h : ℕ} {blocks : List Block} (j k : ℕ)
    → Retired s i h blocks
    → Retired (dropped_on j k s) i h blocks
dropped_on-Retired {s} {i} {h} j k v = record {
  routed = dropped_on-IsRouted j k v.routed;
  made = omega (arith, v.made, dropped_on-next j k s);
  unused = λ l e. v.unused l (sym (ap (lookup l) (active-dropped j k s)) ∙ e);
  log = sent-dropped s j h k ∙ v.log;
  handed = subst (Handed i h) (sym (to_clients-dropped j k s)) v.handed;
}
