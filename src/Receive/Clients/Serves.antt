-- ===== src/Receive/Clients/Serves.antt =====
-- What src/receive/clients.rs does with whole transfers.
use lidi.Prelude.{ℕ, ◌≡◌, refl, ap, Bool, true, List, [], ◌∷◌, ◌++◌, map}
use lidi.Prelude.Outcome.{ok}
use lidi.Protocol.Block.{ClientId, Block}
use lidi.Protocol.RaptorQ.{RaptorQ}
use lidi.Send.Client.Carries.{Transfer}
use lidi.Receive.Client
use lidi.Receive.Client.{Message, block, client_end}
use lidi.Receive.Client.Delivers.{holding, run-delivers}
use lidi.Receive.Clients.{Transferring, Action, wait, signal, served, disconnected, start}

-- Whole transfers: for each client the blocks of a stream, and anything behind them.
pub record Whole (q : RaptorQ) : Type 0 where
  pub id : ClientId
  pub bytes : List ℕ
  pub blocks : List Block
  pub rest : List Message
  pub transfer : Transfer q id bytes blocks

module _ (flush : Bool) (q : RaptorQ) where
  abbrev pub transferring : Whole q → Transferring
  transferring t = record {
    client_id = t.id;
    client_new = ok (holding []);
    messages = map block t.blocks ++ t.rest;
  }

  abbrev pub expected : List (Whole q) → List Action
  expected [] = []
  expected (t ∷ transfers) =
      wait ∷ served t.id (holding t.bytes) (client_end true) ∷ signal ∷ expected transfers

  client-serves :
      (t : Whole q)
      → Client.start flush (ok (holding [])) (map block t.blocks ++ t.rest)
        ≡ ok (holding t.bytes, client_end true)
  unfolding Client.start
  client-serves t = ap ok (run-delivers flush t.rest t.transfer)

  -- For every whole transfer whose client can be made, in the order in which they come and each
  -- between the two uses of the semaphore, the worker has exactly the bytes of the transfer
  -- written, and the client ended with `true`; then it waits for more, until its channel closes.
  pub start-serves :
      (transfers : List (Whole q))
      → start flush (map transferring transfers) ≡ (expected transfers, disconnected)
  unfolding start
  start-serves [] = refl
  start-serves (t ∷ transfers) = rw (client-serves t) (rw (start-serves transfers))
