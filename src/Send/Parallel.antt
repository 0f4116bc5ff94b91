-- ===== src/Send/Parallel.antt =====
-- The threads of src/send/server.rs side by side, and that of src/send/heartbeat.rs, interleaved by a
-- step relation. What a client's worker will put on the queue is fixed by its reads when it starts;
-- the blocks are queued one by one. A worker that panics ends its thread and is left out.
use lidi.Prelude.{ℕ, suc, ◌+◌, ◌≡◌, Option, none, some, Bool, true, false, List, [], ◌∷◌, ◌++◌}
use lidi.Prelude.Outcome.{ok, err}
use lidi.Protocol.RaptorQ.{RaptorQ}
use lidi.Protocol.Block.{abort, heartbeat, ClientId, Block, new, new_client_id}
use lidi.Stream.{Reader}
use lidi.Send.Client
use lidi.Send.Client.{run}

-- A client that is served: what it has still to queue, and whether its worker ends with an error.
pub record Serving : Type 0 where
  pub id : ClientId
  pub left : List Block
  pub failed : Bool

pub record State : Type 0 where
  pub for_server : List (Option Reader)
  -- servers that hold a client and wait for the semaphore
  pub waiting : List Reader
  pub serving : List Serving
  -- servers that have an abort block to queue
  pub aborting : List Block
  -- servers that have taken the end mark, with the end marks that they have still to queue
  pub stopping : List ℕ
  -- servers that wait for a client
  pub idle : ℕ
  -- the semaphore `multiplex_control`
  pub permits : ℕ
  -- `CLIENT_ID_COUNTER`
  pub counter : ℕ
  pub to_ordering : List (Option Block)

-- A state in which this client is served.
abbrev pub admitted : State → List Reader → ℕ → List Block → Bool → State
admitted s waiting permits blocks failed = record s {
  waiting = waiting;
  permits = permits;
  counter = (new_client_id s.counter).1;
  serving =
      s.serving ++ record { id = (new_client_id s.counter).0; left = blocks; failed = failed } ∷ [];
}

module _ (capacity : ℕ → ℕ → ℕ) (flush : Bool) (q : RaptorQ) (nb_encode_threads : ℕ)
    (heartbeat_interval : Option ℕ) where
  pub data Step (s t : State) : Type 0 where
    -- `for_server.recv()`
    take :
        (client : Reader) (rest : List (Option Reader)) (others : ℕ)
        → s.for_server ≡ some client ∷ rest
        → s.idle ≡ suc others
        → t ≡ record s { for_server = rest; idle = others; waiting = s.waiting ++ client ∷ [] }
        → Step s t
    -- the end mark, which is to be passed on for each encoding thread before the server returns
    stop :
        (rest : List (Option Reader)) (others : ℕ)
        → s.for_server ≡ none ∷ rest
        → s.idle ≡ suc others
        → t ≡ record s {
          for_server = rest;
          idle = others;
          stopping = s.stopping ++ nb_encode_threads ∷ [];
        }
        → Step s t
    mark :
        (before after : List ℕ) (others : ℕ)
        → s.stopping ≡ before ++ suc others ∷ after
        → t ≡ record s {
          stopping = before ++ others ∷ after;
          to_ordering = s.to_ordering ++ none ∷ [];
        }
        → Step s t
    -- `multiplex_control.wait()`, `new_client_id()`, and the client's worker starts
    admit :
        (before after : List Reader) (client : Reader) (free : ℕ) (blocks : List Block)
        → s.waiting ≡ before ++ client ∷ after
        → s.permits ≡ suc free
        → run capacity flush q (new_client_id s.counter).0 client ≡ some (blocks, ok tt)
        → t ≡ admitted s (before ++ after) free blocks false
        → Step s t
    admit_failing :
        (before after : List Reader) (client : Reader) (free : ℕ) (blocks : List Block)
        (e : Client.Error)
        → s.waiting ≡ before ++ client ∷ after
        → s.permits ≡ suc free
        → run capacity flush q (new_client_id s.counter).0 client ≡ some (blocks, err e)
        → t ≡ admitted s (before ++ after) free blocks true
        → Step s t
    -- the client's worker queues its next block
    put :
        (before after : List Serving) (w : Serving) (block : Block) (left : List Block)
        → s.serving ≡ before ++ w ∷ after
        → w.left ≡ block ∷ left
        → t ≡ record s {
          serving = before ++ record w { left = left } ∷ after;
          to_ordering = s.to_ordering ++ some block ∷ [];
        }
        → Step s t
    -- `multiplex_control.signal()`, after a client that ended well
    signal :
        (before after : List Serving) (w : Serving)
        → s.serving ≡ before ++ w ∷ after
        → w.left ≡ []
        → w.failed ≡ false
        → t ≡ record s { serving = before ++ after; permits = s.permits + 1; idle = s.idle + 1 }
        → Step s t
    -- the same after a client that has failed
    fail :
        (before after : List Serving) (w : Serving) (block : Block)
        → s.serving ≡ before ++ w ∷ after
        → w.left ≡ []
        → w.failed ≡ true
        → new capacity abort q w.id none ≡ ok block
        → t ≡ record s {
          serving = before ++ after;
          permits = s.permits + 1;
          aborting = s.aborting ++ block ∷ [];
        }
        → Step s t
    abort_client :
        (before after : List Block) (block : Block)
        → s.aborting ≡ before ++ block ∷ after
        → t ≡ record s {
          aborting = before ++ after;
          idle = s.idle + 1;
          to_ordering = s.to_ordering ++ some block ∷ [];
        }
        → Step s t
    -- a round of the heartbeat worker
    beat :
        (interval : ℕ) (block : Block)
        → heartbeat_interval ≡ some interval
        → new capacity heartbeat q 0 none ≡ ok block
        → t ≡ record s { to_ordering = s.to_ordering ++ some block ∷ [] }
        → Step s t

  pub data Reach (s : State) : State → Type 0 where
    here : Reach s s
    next : {t u : State} → Reach s t → Step t u → Reach s u

-- `max_clients` servers and permits, before the first client is taken.
abbrev pub fresh : ℕ → List (Option Reader) → State
fresh max_clients clients = record {
  for_server = clients;
  waiting = [];
  serving = [];
  aborting = [];
  stopping = [];
  idle = max_clients;
  permits = max_clients;
  counter = 0;
  to_ordering = [];
}
