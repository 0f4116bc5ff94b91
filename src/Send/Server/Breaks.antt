-- ===== src/Send/Server/Breaks.antt =====
-- One client and then the end mark, in src/send/server.rs.
use lidi.Prelude.{ℕ, ◌≡◌, refl, Option, none, some, Bool, List, [], ◌∷◌, ◌++◌, replicate}
use lidi.Prelude.Outcome.{ok, err}
use lidi.Protocol.RaptorQ.{RaptorQ}
use lidi.Protocol.Block.{abort, ClientId, Block, new}
use lidi.Stream.{Reader}
use lidi.Send.Client
use lidi.Send.Server.{wait, signal, to_ordering, sends, start}

module _ (capacity : ℕ → ℕ → ℕ) (flush : Bool) (q : RaptorQ) (nb_encode_threads : ℕ) (id : ClientId)
    (client : Reader) (blocks : List Block) (rest : List (Option (ClientId × Reader))) where
  pub start-well :
      Client.run capacity flush q id client ≡ some (blocks, ok tt)
      → start capacity flush q nb_encode_threads (some (id, client) ∷ none ∷ rest)
        ≡ some (
          (wait ∷ sends blocks ++ signal ∷ []) ++ replicate nb_encode_threads (to_ordering none),
          ok tt,
        )
  unfolding start
  start-well e = rw e refl

  -- A client that has failed: an abort block behind its blocks.
  pub start-failed :
      (e : Client.Error) (b : Block)
      → Client.run capacity flush q id client ≡ some (blocks, err e)
      → new capacity abort q id none ≡ ok b
      → start capacity flush q nb_encode_threads (some (id, client) ∷ none ∷ rest)
        ≡ some (
          (wait ∷ sends blocks ++ signal ∷ [])
              ++ to_ordering (some b) ∷ replicate nb_encode_threads (to_ordering none),
          ok tt,
        )
  unfolding start
  start-failed e b ran made = rw (ran, made) refl
