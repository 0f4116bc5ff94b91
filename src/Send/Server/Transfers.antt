-- ===== src/Send/Server/Transfers.antt =====
-- What src/send/server.rs puts on the queue for clients that can be read.
use lidi.Prelude.{
  ℕ, ◌≡◌, refl, ap, Option, none, some, Bool, List, [], ◌∷◌, ◌++◌, map, replicate, All, sym,
  append_assoc,
}
use lidi.Prelude.Outcome.{ok}
use lidi.Protocol.RaptorQ.{RaptorQ}
use lidi.Protocol.Block.{ClientId, Block}
use lidi.Stream.{Reader}
use lidi.Stream.Laws.{Works}
use lidi.Send.Client.Carries.{Transfer}
use lidi.Send.Client.Rounds.{Setting}
use lidi.Send.Client.Splits.{run-Transfer}
use lidi.Send.Server.{Action, wait, signal, to_ordering, sends, start}

-- For each client a whole transfer of its stream, between the two uses of the semaphore.
pub data Transfers (q : RaptorQ) : List (ClientId × Reader) → List Action → Type 0 where
  none_left : Transfers q [] []
  one_more :
      (id : ClientId) (client : Reader) (blocks : List Block) (clients : List (ClientId × Reader))
      (actions : List Action)
      → Transfer q id client.input blocks
      → Transfers q clients actions
      → Transfers q ((id, client) ∷ clients) ((wait ∷ sends blocks ++ signal ∷ []) ++ actions)

module _ (capacity : ℕ → ℕ → ℕ) (flush : Bool) (q : RaptorQ) (nb_encode_threads : ℕ) where
  abbrev pub CanServe : ClientId × Reader → Type 0
  CanServe x = Setting capacity q x.0 × All Works x.1.schedule

  -- Clients that can be read, then the end mark: a server worker returns well. It has queued one whole
  -- transfer for each client, one after another in the order in which they came, each between
  -- the two uses of the semaphore, and then one end mark for each encoding thread.
  pub start-Transfers :
      (clients : List (ClientId × Reader)) (rest : List (Option (ClientId × Reader)))
      → All CanServe clients
      → (actions : List Action) × (start capacity flush q nb_encode_threads
            (map some clients ++ none ∷ rest)
          ≡ some (actions ++ replicate nb_encode_threads (to_ordering none), ok tt))
        × Transfers q clients actions
  unfolding start
  start-Transfers [] rest h = ([], refl, none_left)
  start-Transfers ((id, client) ∷ clients) rest h =
      let (blocks, ran, transfer) = run-Transfer capacity flush q id h.0.0 client h.0.1 in
      let (actions, served, transfers) = start-Transfers clients rest h.1 in
      (
        (wait ∷ sends blocks ++ signal ∷ []) ++ actions,
        rw (ran) (
            rw (served) (
              ap (λ l. some (l, ok tt))
                (sym (
                  append_assoc (wait ∷ sends blocks ++ signal ∷ []) actions
                    (replicate nb_encode_threads (to_ordering none)))))),
        one_more id client blocks clients actions transfer transfers,
      )
