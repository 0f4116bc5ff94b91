-- ===== src/Send/Server.antt =====
-- src/send/server.rs and src/send/heartbeat.rs: the workers that put the clients' blocks and the
-- heartbeats on the queue of src/send/ordering.rs. What a server does is a list of actions; what it
-- receives is a list, of which the end is a closed channel. The counter of `new_client_id` is
-- shared by all server workers: the numbers that this one is given come with the clients.
pub mod Transfers
pub mod Breaks
use lidi.Prelude.{
  ℕ, zero, suc, Option, none, some, Bool, List, [], ◌∷◌, ◌++◌, map, replicate, String,
}
use lidi.Prelude.Outcome.{Outcome, ok, err, panic, ◌>>=◌, map_err}
use lidi.Protocol
use lidi.Protocol.RaptorQ.{RaptorQ}
use lidi.Protocol.Block.{abort, heartbeat, ClientId, Block, new}
use lidi.Stream.{Reader}
use lidi.Send.Client
use lidi.Send.Client.{Sent}

-- `send::Error`, as the server returns it
pub data Error : Type 0 where
  protocol : Protocol.Error → Error
  receive : Error
  other : String → Error

pub data Action : Type 0 where
  -- `multiplex_control`
  wait signal : Action
  to_ordering : Option Block → Action

abbrev pub sends : List Block → List Action
sends = map (λ block. to_ordering (some block))

-- What the worker has done, and how it returned; it does not return while it waits.
abbrev pub Served : Type 0
Served = List Action × Outcome Error Unit

module _ (capacity : ℕ → ℕ → ℕ) (flush : Bool) (q : RaptorQ) (nb_encode_threads : ℕ) where
  -- The end of a round in which the client failed.
  abbrev after_abort : Outcome Protocol.Error Block → Option Served → Option Served
  after_abort (ok block) none = none
  after_abort (ok block) (some (actions, result)) =
      some (to_ordering (some block) ∷ actions, result)
  after_abort (err e) rest = some ([], err (protocol e))
  after_abort panic rest = some ([], panic)

  abbrev pub prepend : List Action → Option Served → Option Served
  prepend actions none = none
  prepend actions (some (more, result)) = some (actions ++ more, result)

  -- A round, from how the client's worker ended; a panic ends the server too, before the signal.
  abbrev pub round : ClientId → Option Sent → Option Served → Option Served
  round id none rest = none
  round id (some (blocks, ok tt)) rest = prepend (wait ∷ sends blocks ++ signal ∷ []) rest
  round id (some (blocks, err e)) rest =
      prepend (wait ∷ sends blocks ++ signal ∷ []) (after_abort (new capacity abort q id none) rest)
  round id (some (blocks, panic)) rest = some (wait ∷ sends blocks, panic)

  -- `none` as a result: a client's worker ran out of fuel.
  pub start : List (Option (ClientId × Reader)) → Option Served
  start [] = some ([], err receive)
  start (none ∷ messages) = some (replicate nb_encode_threads (to_ordering none), ok tt)
  start (some (id, client) ∷ messages) =
      round id (Client.run capacity flush q id client) (start messages)

module _ (capacity : ℕ → ℕ → ℕ) (q : RaptorQ) where
  -- The first `rounds` rounds of the heartbeat worker, where it has an interval.
  pub heartbeats : ℕ → Option ℕ → List Action × Outcome Error Unit
  heartbeats rounds none = ([], err (other "no heartbeat duration but heartbeat enabled"))
  heartbeats zero (some interval) = ([], ok tt)
  heartbeats (suc rounds) (some interval) = elim (new capacity heartbeat q 0 none) [
    | ok block ↦
        let rest = heartbeats rounds (some interval) in (to_ordering (some block) ∷ rest.0, rest.1)
    | err e ↦ ([], err (protocol e))
    | panic ↦ ([], panic)
  ]
