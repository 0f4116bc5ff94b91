-- ===== src/Send/Ordering.antt =====
-- src/send/ordering.rs: the worker that numbers the blocks. Its channel is the list of what it
-- receives, and what it sends is returned.
pub mod Numbers
use lidi.Prelude.{ℕ, ◌+◌, ◌%◌, Option, none, some, List, [], ◌∷◌, Bool, true, false}
use lidi.Protocol.Block.{Block}

-- What `start` has sent, and whether it has returned (if not, it waits for the next message).
pub record Sent (P : Type 0) : Type 0 where
  pub to_encoding : List (Option (ℕ × Block))
  pub to_send : List (Option (List P))
  pub returned : Bool

-- The loop, with its variable `id`.
pub ordering : (P : Type 0) → ℕ → List (Option Block) → Sent P
ordering P id [] = record { to_encoding = []; to_send = []; returned = false }
ordering P id (none ∷ messages) = record { to_encoding = []; to_send = none ∷ []; returned = true }
ordering P id (some block ∷ messages) =
    let rest = ordering P ((id + 1) % 256) messages in
    record rest { to_encoding = some (id, block) ∷ rest.to_encoding }

unfoldable pub start : (P : Type 0) → List (Option Block) → Sent P
unfolding ordering
start P messages = ordering P 0 messages
