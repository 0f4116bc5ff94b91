-- ===== src/Receive/Dispatch.antt =====
-- src/receive/dispatch.rs: the worker that hands each block to the worker of its client. A channel is
-- made for every transfer; `Channel` records what was sent on it, how many blocks its worker has
-- taken, and whether the worker still holds its end. The workers take blocks and drop their ends
-- between the rounds of the dispatcher. Heartbeats only set a clock for a log message.
pub mod Routes
pub mod Blocks
pub mod After
mod Workers
pub mod Isolates
use lidi.Prelude.{
  ℕ, ◌+◌, Option, none, some, Bool, true, false, not, ◌&&◌, ◌||◌, ltb, List, [], ◌∷◌, ◌++◌, length,
  ◌==◌, if◌then◌else◌,
}
use lidi.Prelude.Assoc.{lookup, insert, remove}
use lidi.Prelude.Outcome.{Outcome, ok, err, panic, ◌>>=◌, map_err}
use lidi.Protocol
use lidi.Protocol.RaptorQ.{RaptorQ}
use lidi.Protocol.Block.{
  BlockType, heartbeat, start, data_block, abort, end, ClientId, Block, new, client_id, block_type,
}

pub record Channel : Type 0 where
  pub sent : List Block
  pub taken : ℕ
  pub is_open : Bool

abbrev pub unbounded : Channel
unbounded = record { sent = []; taken = 0; is_open = true }

-- `is_empty` on a channel
abbrev drained : Channel → Bool
drained c = length c.sent == c.taken

-- A channel is known by its number; `next` is the first one not yet made.
pub record State : Type 0 where
  pub active_transfers : List (ClientId × ℕ)
  pub ended_transfers : List (ClientId × ℕ)
  pub channel : ℕ → Channel
  pub next : ℕ
  -- what was sent to the clients' workers
  pub to_clients : List (ClientId × ℕ)

abbrev pub init : State
init = record {
  active_transfers = [];
  ended_transfers = [];
  channel = λ h. unbounded;
  next = 0;
  to_clients = [];
}

abbrev pub update : (ℕ → Channel) → ℕ → Channel → ℕ → Channel
update f h c j = if j == h then c else f j

-- `send` on channel `h`, where it is open
abbrev pub send : State → ℕ → Block → State
send s h b =
    let c = s.channel h in
    record s { channel = update s.channel h (record c { sent = c.sent ++ b ∷ [] }) }

-- `send` that logs a failure
abbrev try_send : State → ℕ → Block → State
try_send s h b = if (s.channel h).is_open then send s h b else s

-- `retain` over the ended transfers whose channels are not drained
pub retain : (ℕ → Channel) → List (ClientId × ℕ) → List (ClientId × ℕ)
retain channel [] = []
retain channel ((id, h) ∷ l) =
    let rest = retain channel l in if not (drained (channel h)) then (id, h) ∷ rest else rest

module _ (capacity : ℕ → ℕ → ℕ) (q : RaptorQ) where
  -- The loss of synchronisation: every active transfer is sent an abort block.
  pub abort_all : State → List (ClientId × ℕ) → Outcome Protocol.Error State
  abort_all s [] = ok s
  abort_all s ((id, h) ∷ l) = do b ← new capacity abort q id none; abort_all (try_send s h b) l

  pub on_loss : State → Outcome Protocol.Error State
  unfolding abort_all
  on_loss s = do s' ← abort_all s s.active_transfers; ok (record s' { active_transfers = [] })

-- `BlockType::Start`: a new channel, which replaces one that the client already has
unfoldable pub open_transfer : ClientId → State → State
open_transfer id s = record s {
  active_transfers = insert id s.next s.active_transfers;
  channel = update s.channel s.next unbounded;
  next = s.next + 1;
  to_clients = s.to_clients ++ (id, s.next) ∷ [];
}

-- The branch `if will_end`
unfoldable pub close_transfer : ClientId → ℕ → State → State
unfolding retain
close_transfer id h s = record s {
  active_transfers = remove id s.active_transfers;
  ended_transfers = insert id h (retain s.channel s.ended_transfers);
}

-- The rest of a round, from the look-up of the client.
abbrev route : Bool → Block → ClientId → State → Option ℕ → State
route will_end b id s none = s
route will_end b id s (some h) =
    if (s.channel h).is_open
    then (if will_end then close_transfer id h (send s h b) else send s h b)
    else record s { active_transfers = remove id s.active_transfers }

unfoldable pub forward : Bool → Block → ClientId → State → State
forward will_end b id s = route will_end b id s (lookup id s.active_transfers)

-- A block of a known type.
abbrev pub on_type : BlockType → Block → ClientId → State → State
on_type heartbeat b id s = s
on_type start b id s = forward false b id (open_transfer id s)
on_type data_block b id s = forward false b id s
on_type abort b id s = forward true b id s
on_type end b id s = forward true b id s

abbrev with_type : Block → State → Outcome Protocol.Error BlockType → Outcome Protocol.Error State
with_type b s (ok kind) = do id ← client_id b; ok (on_type kind b id s)
with_type b s (err e) = ok s
with_type b s panic = panic

unfoldable pub on_block : Block → State → Outcome Protocol.Error State
on_block b s = with_type b s (block_type b)

module _ (capacity : ℕ → ℕ → ℕ) (q : RaptorQ) where
  -- One round of the loop on a message; an error ends the worker.
  unfoldable pub step : State → Option Block → Outcome Protocol.Error State
  step s none = on_loss capacity q s
  step s (some b) = on_block b s

-- What happens to the dispatcher: a message comes, a client's worker takes a block off its channel, or
-- the worker that has got a channel of this client drops its end.
pub data Event : Type 0 where
  message : Option Block → Event
  takes : ℕ → Event
  drops : ClientId → ℕ → Event

abbrev pub is_handed : ClientId → ℕ → List (ClientId × ℕ) → Bool
is_handed id h [] = false
is_handed id h ((j, k) ∷ l) = (id == j && h == k) || is_handed id h l

abbrev pub take_one : Channel → Channel
take_one c = if ltb c.taken (length c.sent) then record c { taken = c.taken + 1 } else c

abbrev pub taken_on : ℕ → State → State
taken_on h s = record s { channel = update s.channel h (take_one (s.channel h)) }

abbrev pub dropped_on : ClientId → ℕ → State → State
dropped_on id h s =
    if is_handed id h s.to_clients
    then record s { channel = update s.channel h (record (s.channel h) { is_open = false }) }
    else s

module _ (capacity : ℕ → ℕ → ℕ) (q : RaptorQ) where
  unfoldable pub on_event : State → Event → Outcome Protocol.Error State
  on_event s (message m) = step capacity q s m
  on_event s (takes h) = ok (taken_on h s)
  on_event s (drops id h) = ok (dropped_on id h s)

  pub run : State → List Event → Outcome Protocol.Error State
  run s [] = ok s
  run s (event ∷ events) = do s' ← on_event s event; run s' events
