-- ===== src/Pipeline/Owned.antt =====
-- Whose the blocks of src/send/server.rs are, and a queue that one more block joins.
use mathlib.Core.Path.{subst}
use lidi.Prelude.{ℕ, ◌≡◌, ◌≢◌, some, Bool, List, [], ◌∷◌, ◌++◌, All}
use lidi.Prelude.Outcome.{Outcome, ok, panic}
use lidi.Protocol.RaptorQ.{RaptorQ}
use lidi.Protocol.Block.{Block, BlockType, ClientId, client_id, block_type}
use lidi.Protocol.Block.RoundTrip.{Reads}
use lidi.Stream.{Reader}
use lidi.Send.Client.{Error, run}
use lidi.Send.Client.Carries.{Carries, last, more, Parts, no_part, part, Ended, whole, cut}
use lidi.Send.Client.Rounds.{Setting}
use lidi.Send.Client.Splits.{run-Ended}
use lidi.Pipeline.Among.{Among, nothing, own, foreign}

-- A block of this client, whose type can be read or not.
abbrev pub Owned : ClientId → Block → Type 0
Owned j b = (client_id b ≡ ok j) × (block_type b ≢ panic)

pub Reads-Owned :
    {b : Block} {block : BlockType} {j : ClientId} {bytes : List ℕ}
    → Reads b block j bytes
    → Owned j b
Reads-Owned r = (r.owner, λ e. cc (r.kind, e))

module _ {q : RaptorQ} {id : ClientId} where
  Carries-Owned :
      {bytes : List ℕ} {blocks : List Block} → Carries q id bytes blocks → All (Owned id) blocks
  Carries-Owned (last b reads sized) = (Reads-Owned reads, tt)
  Carries-Owned (more head tail b blocks reads sized e c) = (Reads-Owned reads, Carries-Owned c)

  Parts-Owned :
      {bytes : List ℕ} {blocks : List Block} → Parts q id bytes blocks → All (Owned id) blocks
  Parts-Owned no_part = tt
  Parts-Owned (part head tail b blocks reads sized e p) = (Reads-Owned reads, Parts-Owned p)

  Ended-Owned :
      {input : List ℕ} {works : Type 0} {blocks : List Block} {result : Outcome Error Unit}
      → Ended q id input works blocks result
      → All (Owned id) blocks
  Ended-Owned (whole c) = Carries-Owned c
  Ended-Owned (cut bytes unsent e parts fails) = Parts-Owned parts

-- What a client's worker queues is its client's.
pub run-Owned :
    (capacity : ℕ → ℕ → ℕ) (flush : Bool) (q : RaptorQ) (id : ClientId) (client : Reader)
    (blocks : List Block) (result : Outcome Error Unit)
    → Setting capacity q id
    → run capacity flush q id client ≡ some (blocks, result)
    → All (Owned id) blocks
run-Owned capacity flush q id client blocks result set e =
    let (b, bs, r, ran, reads, sized, ended) = run-Ended capacity flush q id set client in
    let same : b ∷ bs ≡ blocks = cc (ran, e) in
    subst (All (Owned id)) same (Reads-Owned reads, Ended-Owned ended)

pub Among-join :
    {i : ClientId} {mine all : List Block} (b : Block)
    → Among i mine all
    → Among i (mine ++ b ∷ []) (all ++ b ∷ [])
Among-join b nothing = own b [] [] nothing
Among-join b (own c mine all a) = own c (mine ++ b ∷ []) (all ++ b ∷ []) (Among-join b a)
Among-join b (foreign c j mine all owner ne readable a) =
    foreign c j (mine ++ b ∷ []) (all ++ b ∷ []) owner ne readable (Among-join b a)

pub Among-pass :
    {i : ClientId} {mine all : List Block} (b : Block) (j : ClientId)
    → Owned j b
    → j ≢ i
    → Among i mine all
    → Among i mine (all ++ b ∷ [])
Among-pass b j o ne nothing = foreign b j [] [] o.0 ne o.1 nothing
Among-pass b j o ne (own c mine all a) = own c mine (all ++ b ∷ []) (Among-pass b j o ne a)
Among-pass b j o ne (foreign c k mine all owner ne' readable a) =
    foreign c k mine (all ++ b ∷ []) owner ne' readable (Among-pass b j o ne a)
