-- ===== src/Receive/Dispatch/After.antt =====
-- Blocks of whatever client in src/receive/dispatch.rs: what they keep of a transfer that is over.
use mathlib.Core.Path.{subst}
use lidi.Prelude.{
  ℕ, ◌≤◌, ◌≡◌, ◌≢◌, refl, ap, sym, ◌∙◌, Option, none, some, Bool, true, false, List, arith,
}
use lidi.Prelude.Assoc.{lookup, lookup-insert, lookup-remove}
use lidi.Prelude.Outcome.{Outcome, ok, err, panic}
use lidi.Protocol
use lidi.Protocol.Block.{
  BlockType, heartbeat, start, data_block, abort, end, ClientId, Block, client_id, block_type,
}
use lidi.Receive.Dispatch.{
  State, open_transfer, close_transfer, route, forward, on_type, with_type, on_block,
}
use lidi.Receive.Dispatch.Routes.{
  IsRouted, Handed, Handed-append, to_clients-route, route-IsRouted, open_transfer-IsRouted,
}
use lidi.Receive.Dispatch.Blocks.{Retired}

route-Retired :
    {s : State} {i h : ℕ} {blocks : List Block} (will_end : Bool) (b : Block) (j : ClientId)
    (o : Option ℕ)
    → lookup j s.active_transfers ≡ o
    → Retired s i h blocks
    → Retired (route will_end b j s o) i h blocks
unfolding close_transfer
route-Retired {s} {i} {h} will_end b j none e v = v
route-Retired {s} {i} {h} will_end b j (some k) e v =
    let other : k ≢ h = λ same. v.unused j (e ∙ ap some same) in
    record {
      routed = route-IsRouted will_end b j (some k) v.routed;
      made = ground (arith, v.made);
      unused = λ l f. ground (arith, lookup-remove j l s.active_transfers, v.unused l);
      log = ground (arith, v.log, other);
      handed = subst (Handed i h) (sym (to_clients-route will_end b j s (some k))) v.handed;
    }

open_transfer-Retired :
    {s : State} {i h : ℕ} {blocks : List Block} (j : ClientId)
    → Retired s i h blocks
    → Retired (open_transfer j s) i h blocks
unfolding open_transfer
open_transfer-Retired {s} {i} {h} j v = record {
  routed = open_transfer-IsRouted j v.routed;
  made = ground (arith, v.made);
  unused = λ l f. ground (arith, lookup-insert j l s.next s.active_transfers, v.unused l, v.made);
  log = ground (arith, v.log, v.made);
  handed = Handed-append i h s.to_clients (j, s.next) v.handed;
}

forward-Retired :
    {s : State} {i h : ℕ} {blocks : List Block} (will_end : Bool) (b : Block) (j : ClientId)
    → Retired s i h blocks
    → Retired (forward will_end b j s) i h blocks
unfolding forward
forward-Retired will_end b j v = route-Retired will_end b j _ refl v

on_type-Retired :
    {s : State} {i h : ℕ} {blocks : List Block} (kind : BlockType) (b : Block) (j : ClientId)
    → Retired s i h blocks
    → Retired (on_type kind b j s) i h blocks
on_type-Retired heartbeat b j v = v
on_type-Retired start b j v = forward-Retired false b j (open_transfer-Retired j v)
on_type-Retired data_block b j v = forward-Retired false b j v
on_type-Retired abort b j v = forward-Retired true b j v
on_type-Retired end b j v = forward-Retired true b j v

forward-IsRouted :
    {s : State} (will_end : Bool) (b : Block) (j : ClientId)
    → IsRouted s
    → IsRouted (forward will_end b j s)
unfolding forward
forward-IsRouted will_end b j r = route-IsRouted will_end b j _ r

on_type-IsRouted :
    {s : State} (kind : BlockType) (b : Block) (j : ClientId)
    → IsRouted s
    → IsRouted (on_type kind b j s)
on_type-IsRouted heartbeat b j r = r
on_type-IsRouted start b j r = forward-IsRouted false b j (open_transfer-IsRouted j r)
on_type-IsRouted data_block b j r = forward-IsRouted false b j r
on_type-IsRouted abort b j r = forward-IsRouted true b j r
on_type-IsRouted end b j r = forward-IsRouted true b j r

next-route :
    (will_end : Bool) (b : Block) (j : ClientId) (s : State) (o : Option ℕ)
    → (route will_end b j s o).next ≡ s.next
unfolding close_transfer
next-route will_end b j s none = refl
next-route true b j s (some k) = ground arith
next-route false b j s (some k) = ground arith

next-forward :
    (will_end : Bool) (b : Block) (j : ClientId) (s : State)
    → (forward will_end b j s).next ≡ s.next
unfolding forward
next-forward will_end b j s = next-route will_end b j s _

on_type-next :
    (kind : BlockType) (b : Block) (j : ClientId) (s : State) → s.next ≤ (on_type kind b j s).next
unfolding open_transfer
on_type-next heartbeat b j s = omega arith
on_type-next start b j s = omega (arith, next-forward false b j (open_transfer j s))
on_type-next data_block b j s = omega (arith, next-forward false b j s)
on_type-next abort b j s = omega (arith, next-forward true b j s)
on_type-next end b j s = omega (arith, next-forward true b j s)

-- A block whose client can be read, whatever its type, keeps what every type keeps.
on_block-keeps :
    (P : State → Type 0) (s : State) (b : Block) (j : ClientId)
    → client_id b ≡ ok j
    → block_type b ≢ panic
    → ((kind : BlockType) → P (on_type kind b j s))
    → P s
    → (s' : State) × (on_block b s ≡ ok s') × P s'
unfolding on_block
on_block-keeps P s b j owner readable each p = by_type (block_type b) refl
  where
    by_type :
        (r : Outcome Protocol.Error BlockType)
        → block_type b ≡ r
        → (s' : State) × (with_type b s r ≡ ok s') × P s'
    by_type (ok kind) e = (on_type kind b j s, rw owner refl, each kind)
    by_type (err x) e = (s, refl, p)
    by_type panic e = absurd (readable e)

pub on_block-Retired :
    {s : State} {i h : ℕ} {blocks : List Block} (b : Block) (j : ClientId)
    → client_id b ≡ ok j
    → block_type b ≢ panic
    → Retired s i h blocks
    → (s' : State) × (on_block b s ≡ ok s') × Retired s' i h blocks
on_block-Retired {s} {i} {h} {blocks} b j owner readable v =
    on_block-keeps (λ t. Retired t i h blocks) s b j owner readable
      (λ kind. on_type-Retired kind b j v) v

pub on_block-IsRouted :
    (s : State) (b : Block) (j : ClientId)
    → client_id b ≡ ok j
    → block_type b ≢ panic
    → IsRouted s
    → (s' : State) × (on_block b s ≡ ok s') × (IsRouted s' × (s.next ≤ s'.next))
on_block-IsRouted s b j owner readable r =
    on_block-keeps (λ t. IsRouted t × (s.next ≤ t.next)) s b j owner readable
      (λ kind. (on_type-IsRouted kind b j r, on_type-next kind b j s)) (r, omega arith)
