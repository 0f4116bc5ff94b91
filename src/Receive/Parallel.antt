-- ===== src/Receive/Parallel.antt =====
-- The threads of src/receive/clients.rs side by side, interleaved by a step relation. What comes on a
-- client's channel and what `client_new` returns is fixed for each transfer; a worker that panics or
-- waits for ever does not come back.
pub mod Serves
use lidi.Prelude.{ℕ, suc, ◌+◌, ◌≡◌, Bool, true, false, List, [], ◌∷◌, ◌++◌}
use lidi.Prelude.Outcome.{Outcome, ok, err, panic}
use lidi.Protocol.Block.{ClientId}
use lidi.Stream.{Writer}
use lidi.Receive.Client
use lidi.Receive.Client.{End, client_end, failed, panicked, waiting}
use lidi.Receive.Clients.{Transferring}

-- The client, and what its worker has written and returned.
abbrev pub Result : Type 0
Result = ClientId × Outcome Client.Error (Writer × End)

abbrev pub outcome : Bool → Transferring → Result
outcome flush t = (t.client_id, Client.start flush t.client_new t.messages)

-- Whether the client's worker comes back.
abbrev pub returns : Outcome Client.Error (Writer × End) → Bool
returns (ok (w, client_end flag)) = true
returns (ok (w, failed e)) = true
returns (ok (w, panicked)) = false
returns (ok (w, waiting)) = false
returns (err e) = true
returns panic = false

pub record State : Type 0 where
  pub for_clients : List Transferring
  -- threads that hold a transfer and wait for the semaphore
  pub acquiring : List Transferring
  pub serving : List Transferring
  -- threads that wait for a transfer
  pub idle : ℕ
  -- the semaphore `multiplex_control`
  pub permits : ℕ
  pub done : List Result

module _ (flush : Bool) where
  pub data Step (s t : State) : Type 0 where
    -- `for_clients.recv()`
    take :
        (x : Transferring) (rest : List Transferring) (others : ℕ)
        → s.for_clients ≡ x ∷ rest
        → s.idle ≡ suc others
        → t ≡ record s { for_clients = rest; idle = others; acquiring = s.acquiring ++ x ∷ [] }
        → Step s t
    -- `multiplex_control.wait()`
    acquire :
        (before after : List Transferring) (x : Transferring) (free : ℕ)
        → s.acquiring ≡ before ++ x ∷ after
        → s.permits ≡ suc free
        → t
          ≡ record s { acquiring = before ++ after; permits = free; serving = s.serving ++ x ∷ [] }
        → Step s t
    -- the client's worker returns, and `multiplex_control.signal()`
    finish :
        (before after : List Transferring) (x : Transferring)
        → s.serving ≡ before ++ x ∷ after
        → returns (outcome flush x).1 ≡ true
        → t ≡ record s {
          serving = before ++ after;
          permits = s.permits + 1;
          idle = s.idle + 1;
          done = s.done ++ outcome flush x ∷ [];
        }
        → Step s t

  pub data Reach (s : State) : State → Type 0 where
    here : Reach s s
    next : {t u : State} → Reach s t → Step t u → Reach s u

-- `max_clients` threads and permits.
abbrev pub fresh : ℕ → List Transferring → State
fresh max_clients transfers = record {
  for_clients = transfers;
  acquiring = [];
  serving = [];
  idle = max_clients;
  permits = max_clients;
  done = [];
}
