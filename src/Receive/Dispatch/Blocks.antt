-- ===== src/Receive/Dispatch/Blocks.antt =====
-- What src/receive/dispatch.rs does with a block of a client and with the blocks of the others.
use lidi.Prelude.{
  ℕ, ◌<◌, ◌≡◌, ◌≢◌, refl, ap, sym, inl, inr, none, some, Bool, true, false, List, [], ◌∷◌, ◌++◌,
  arith,
}
use lidi.Prelude.Assoc.{lookup, lookup-insert, lookup-remove}
use lidi.Prelude.Outcome.{Outcome, ok, err, panic}
use lidi.Protocol
use lidi.Protocol.Block.{
  BlockType, heartbeat, start, data_block, abort, end, ClientId, Block, client_id, block_type,
}
use lidi.Receive.Dispatch.{
  State, send, open_transfer, close_transfer, forward, on_type, with_type, on_block,
}
use lidi.Receive.Dispatch.Routes.{
  send-IsRouted, close_transfer-IsRouted, open_transfer-IsRouted, route-other, route-open,
  route-close, send-Serves, IsRouted, Serves, Handed, Handed-last, Handed-append, Handed-inv,
}

-- A data block of an active client is sent on its channel.
pub on_block-mine :
    {s : State} {i h : ℕ} {blocks : List Block} (b : Block)
    → block_type b ≡ ok data_block
    → client_id b ≡ ok i
    → Serves s i h blocks
    → (s' : State) × (on_block b s ≡ ok s') × Serves s' i h (blocks ++ b ∷ [])
unfolding on_block forward
on_block-mine {s} {i} {h} b kind owner v = (
  send s h b,
  rw (kind, owner) (rw v.active (ap ok (route-open s b i h v.connected))),
  send-Serves b v,
)

-- What a transfer that is over leaves, whatever its client does later: a channel that no client
-- has.
pub record Retired (s : State) (i h : ℕ) (blocks : List Block) : Type 0 where
  pub routed : IsRouted s
  pub made : h < s.next
  pub unused : (j : ℕ) → lookup j s.active_transfers ≢ some h
  pub log : (s.channel h).sent ≡ blocks
  pub handed : Handed i h s.to_clients

close_transfer-unused :
    (s : State) (i h : ℕ)
    → IsRouted s
    → lookup i s.active_transfers ≡ some h
    → (j : ℕ) → lookup j (close_transfer i h s).active_transfers ≢ some h
unfolding close_transfer
close_transfer-unused s i h r active j e =
    ground (arith, lookup-remove i j s.active_transfers, r.apart i j h active)

pub on_block-end :
    {s : State} {i h : ℕ} {blocks : List Block} (b : Block)
    → block_type b ≡ ok end
    → client_id b ≡ ok i
    → Serves s i h blocks
    → (s' : State) × (on_block b s ≡ ok s')
      × Retired s' i h (blocks ++ b ∷ [])
      × (lookup i s'.active_transfers ≡ none)
unfolding on_block forward close_transfer
on_block-end {s} {i} {h} b kind owner v = (
  close_transfer i h (send s h b),
  rw (kind, owner) (rw v.active (ap ok (route-close s b i h v.connected))),
  record {
    routed = close_transfer-IsRouted i h (send-IsRouted h b v.routed);
    made = v.routed.bound i h v.active;
    unused = close_transfer-unused (send s h b) i h (send-IsRouted h b v.routed) v.active;
    log = (send-Serves b v).log;
    handed = v.handed;
  },
  ground (arith, lookup-remove i i s.active_transfers),
)

open_transfer-Serves :
    {s : State} (i : ClientId) → IsRouted s → Serves (open_transfer i s) i s.next []
unfolding open_transfer
open_transfer-Serves {s} i r = record {
  routed = open_transfer-IsRouted i r;
  active = ground (arith, lookup-insert i i s.next s.active_transfers);
  connected = ground arith;
  log = ground arith;
  handed = Handed-last i s.next s.to_clients;
  owner = λ j h. elim (Handed-inv j s.next s.to_clients (i, s.next) h) [
    | inl before ↦ absurd (omega (arith, r.known j s.next before))
    | inr new ↦ sym (ap (λ (x : ℕ × ℕ). x.0) new)
  ];
}

-- A start block: a new channel with that block, handed to the workers.
pub on_block-start :
    {s : State} {i : ℕ} (b : Block)
    → block_type b ≡ ok start
    → client_id b ≡ ok i
    → IsRouted s
    → (s' : State) × (on_block b s ≡ ok s') × Serves s' i s.next (b ∷ [])
unfolding on_block forward
on_block-start {s} {i} b kind owner r =
    let v = open_transfer-Serves i r in
    (
      send (open_transfer i s) s.next b,
      rw (kind, owner)
          (rw v.active (ap ok (route-open (open_transfer i s) b i s.next v.connected))),
      send-Serves b v,
    )

open_transfer-other :
    {s : State} {i h : ℕ} {blocks : List Block} (j : ClientId)
    → j ≢ i
    → Serves s i h blocks
    → Serves (open_transfer j s) i h blocks
unfolding open_transfer
open_transfer-other {s} {i} {h} j ne v =
    let made : h < s.next = v.routed.bound i h v.active in
    record {
      routed = open_transfer-IsRouted j v.routed;
      active = ground (arith, lookup-insert j i s.next s.active_transfers, v.active);
      connected = ground (arith, v.connected, made);
      log = ground (arith, v.log, made);
      handed = Handed-append i h s.to_clients (j, s.next) v.handed;
      owner = λ x a. elim (Handed-inv x h s.to_clients (j, s.next) a) [
        | inl before ↦ v.owner x before
        | inr new ↦ absurd (omega (arith, made, ap (λ (y : ℕ × ℕ). y.1) new))
      ];
    }

forward-other :
    {s : State} {i h : ℕ} {blocks : List Block} (will_end : Bool) (b : Block) (j : ClientId)
    → j ≢ i
    → Serves s i h blocks
    → Serves (forward will_end b j s) i h blocks
unfolding forward
forward-other will_end b j ne v = route-other will_end b j _ refl ne v

on_type-other :
    {s : State} {i h : ℕ} {blocks : List Block} (kind : BlockType) (b : Block) (j : ClientId)
    → j ≢ i
    → Serves s i h blocks
    → Serves (on_type kind b j s) i h blocks
on_type-other heartbeat b j ne v = v
on_type-other start b j ne v = forward-other false b j ne (open_transfer-other j ne v)
on_type-other data_block b j ne v = forward-other false b j ne v
on_type-other abort b j ne v = forward-other true b j ne v
on_type-other end b j ne v = forward-other true b j ne v

-- A block of another client, of whatever type, readable or not.
pub on_block-other :
    {s : State} {i h : ℕ} {blocks : List Block} (b : Block) (j : ClientId)
    → client_id b ≡ ok j
    → j ≢ i
    → block_type b ≢ panic
    → Serves s i h blocks
    → (s' : State) × (on_block b s ≡ ok s') × Serves s' i h blocks
unfolding on_block
on_block-other {s} {i} {h} {blocks} b j owner ne readable v = by_type (block_type b) refl
  where
    by_type :
        (r : Outcome Protocol.Error BlockType)
        → block_type b ≡ r
        → (s' : State) × (with_type b s r ≡ ok s') × Serves s' i h blocks
    by_type (ok kind) e = (on_type kind b j s, rw owner refl, on_type-other kind b j ne v)
    by_type (err x) e = (s, refl, v)
    by_type panic e = absurd (readable e)

-- A heartbeat changes nothing.
pub on_block-heartbeat :
    (s : State) (b : Block) (j : ClientId)
    → block_type b ≡ ok heartbeat
    → client_id b ≡ ok j
    → on_block b s ≡ ok s
unfolding on_block
on_block-heartbeat s b j kind owner = rw (kind, owner)
