-- ===== src/Receive/Dispatch/Isolates.antt =====
-- The transfer of one client among those of others in src/receive/dispatch.rs.
use mathlib.Core.Path.{subst}
use lidi.Prelude.{◌≤◌, arith, ℕ, ◌≡◌, ◌≢◌, refl, some, List, [], ◌∷◌, ◌++◌, append_assoc}
use lidi.Prelude.Outcome.{ok, panic}
use lidi.Protocol.RaptorQ.{RaptorQ}
use lidi.Protocol.Block.{start, data_block, end, Block, client_id, block_type}
use lidi.Receive.Dispatch.{
  State, Event, message, takes, drops, taken_on, dropped_on, step, on_event, run,
}
use lidi.Receive.Dispatch.Workers.{
  taken_on-IsRouted, taken_on-Serves, taken_on-Retired, dropped_on-IsRouted, dropped_on-Serves,
  dropped_on-Retired, dropped_on-next,
}
use lidi.Receive.Dispatch.Routes.{IsRouted, Serves}
use lidi.Receive.Dispatch.Blocks.{
  Retired, on_block-mine, on_block-end, on_block-start, on_block-other,
}
use lidi.Receive.Dispatch.After.{on_block-Retired, on_block-IsRouted}

-- Blocks of clients that `P` allows, of any type, readable or not, and no loss; the workers do what they
-- like.
pub data Foreign (P : ℕ → Type 0) : List Event → Type 0 where
  stop : Foreign P []
  foreign :
      (b : Block) (j : ℕ) (events : List Event)
      → client_id b ≡ ok j
      → P j
      → block_type b ≢ panic
      → Foreign P events
      → Foreign P (message (some b) ∷ events)
  taking : (k : ℕ) (events : List Event) → Foreign P events → Foreign P (takes k ∷ events)
  dropping : (j k : ℕ) (events : List Event) → Foreign P events → Foreign P (drops j k ∷ events)

-- The messages of the decoders from the data blocks of client `i` on, as its transfer sends them:
-- before its end the other messages are blocks of other clients, afterwards of any client, and no
-- worker of client `i` drops its end before.
pub data Body (i : ℕ) : List Block → List Event → Type 0 where
  last :
      (b : Block) (events : List Event)
      → block_type b ≡ ok end
      → client_id b ≡ ok i
      → Foreign (λ j. Unit) events
      → Body i (b ∷ []) (message (some b) ∷ events)
  mine :
      (b : Block) (bs : List Block) (events : List Event)
      → block_type b ≡ ok data_block
      → client_id b ≡ ok i
      → Body i bs events
      → Body i (b ∷ bs) (message (some b) ∷ events)
  other :
      (b : Block) (j : ℕ) (bs : List Block) (events : List Event)
      → client_id b ≡ ok j
      → j ≢ i
      → block_type b ≢ panic
      → Body i bs events
      → Body i bs (message (some b) ∷ events)
  taking_on :
      (k : ℕ) (bs : List Block) (events : List Event)
      → Body i bs events
      → Body i bs (takes k ∷ events)
  dropping_on :
      (j k : ℕ) (bs : List Block) (events : List Event)
      → j ≢ i
      → Body i bs events
      → Body i bs (drops j k ∷ events)

-- The messages of the decoders with a transfer of client `i`, blocks of any client before it.
pub data Woven (i : ℕ) : List Block → List Event → Type 0 where
  first :
      (b : Block) (bs : List Block) (events : List Event)
      → block_type b ≡ ok start
      → client_id b ≡ ok i
      → Body i bs events
      → Woven i (b ∷ bs) (message (some b) ∷ events)
  earlier :
      (b : Block) (j : ℕ) (bs : List Block) (events : List Event)
      → client_id b ≡ ok j
      → block_type b ≢ panic
      → Woven i bs events
      → Woven i bs (message (some b) ∷ events)
  earlier_take :
      (k : ℕ) (bs : List Block) (events : List Event)
      → Woven i bs events
      → Woven i bs (takes k ∷ events)
  earlier_drop :
      (j k : ℕ) (bs : List Block) (events : List Event)
      → Woven i bs events
      → Woven i bs (drops j k ∷ events)

module _ (capacity : ℕ → ℕ → ℕ) (q : RaptorQ) where
  run-Foreign :
      {i h : ℕ} {blocks : List Block} (s : State) (events : List Event)
      → Retired s i h blocks
      → Foreign (λ j. Unit) events
      → (s' : State) × (run capacity q s events ≡ ok s') × Retired s' i h blocks
  unfolding run step on_event
  run-Foreign s _ v stop = (s, refl, v)
  run-Foreign s _ v (foreign b j events owner _ readable rest) =
      let (s', e, v') = on_block-Retired b j owner readable v in
      let (s'', e', c) = run-Foreign s' events v' rest in (s'', rw e e', c)
  run-Foreign s _ v (taking k events rest) =
      run-Foreign (taken_on k s) events (taken_on-Retired k v) rest
  run-Foreign s _ v (dropping j k events rest) =
      run-Foreign (dropped_on j k s) events (dropped_on-Retired j k v) rest

  run-Body :
      (i h : ℕ) (s : State) (sent bs : List Block) (events : List Event)
      → Serves s i h sent
      → Body i bs events
      → (s' : State) × (run capacity q s events ≡ ok s') × Retired s' i h (sent ++ bs)
  unfolding run step on_event
  run-Body i h s sent bs events v (last b events' kind owner rest) =
      let (s', e, c, _) = on_block-end b kind owner v in
      let (s'', e', c') = run-Foreign s' events' c rest in (s'', rw e e', c')
  run-Body i h s sent bs events v (mine b bs' events' kind owner rest) =
      let (s', e, v') = on_block-mine b kind owner v in
      let (s'', e', c) = run-Body i h s' (sent ++ b ∷ []) bs' events' v' rest in
      (s'', rw e e', subst (Retired s'' i h) (append_assoc sent (b ∷ []) bs') c)
  run-Body i h s sent bs events v (other b j bs' events' owner ne readable rest) =
      let (s', e, v') = on_block-other b j owner ne readable v in
      let (s'', e', c) = run-Body i h s' sent bs events' v' rest in (s'', rw e e', c)
  run-Body i h s sent bs events v (taking_on k bs' events' rest) =
      run-Body i h (taken_on k s) sent bs events' (taken_on-Serves k v) rest
  run-Body i h s sent bs events v (dropping_on j k bs' events' ne rest) =
      run-Body i h (dropped_on j k s) sent bs events' (dropped_on-Serves j k ne v) rest

  -- From a state whose active clients have channels of their own and whose channels handed out have
  -- all been made: blocks of any clients, the start
  -- block of client `i`, its data blocks and its end block mixed with blocks of other clients, and
  -- blocks of any clients; the blocks of others may be unreadable. Between the messages the clients'
  -- workers take blocks and drop their ends, but from the start block to the end block none of
  -- client `i` drops an end, which is when its channel would close. The dispatcher does not fail, hands
  -- to the workers a channel of client `i` with exactly the blocks of that transfer on it, in order,
  -- and leaves that channel to no client and the active clients' channels still their own.
  pub run-isolates :
      (i : ℕ) (s : State) (blocks : List Block) (events : List Event)
      → IsRouted s
      → Woven i blocks events
      → (s' : State) × (h : ℕ) × (s.next ≤ h)
        × (run capacity q s events ≡ ok s')
        × Retired s' i h blocks
  unfolding run step on_event
  run-isolates i s blocks events r (first b bs events' kind owner body) =
      let (s', e, v) = on_block-start b kind owner r in
      let (s'', e', c) = run-Body i s.next s' (b ∷ []) bs events' v body in
      (s'', s.next, omega arith, rw e e', c)
  run-isolates i s blocks events r (earlier b j _ events' owner readable rest) =
      let (s', e, (r', le)) = on_block-IsRouted s b j owner readable r in
      let (s'', h, le', e', c) = run-isolates i s' blocks events' r' rest in
      (s'', h, omega arith, rw e e', c)
  run-isolates i s blocks events r (earlier_take k _ events' rest) =
      run-isolates i (taken_on k s) blocks events' (taken_on-IsRouted k r) rest
  run-isolates i s blocks events r (earlier_drop j k _ events' rest) =
      let (s', h, le, e, c) =
        run-isolates i (dropped_on j k s) blocks events' (dropped_on-IsRouted j k r) rest in
      (s', h, omega (arith, le, dropped_on-next j k s), e, c)
