-- ===== src/Pipeline/Among.antt =====
-- A client's transfer in the one stream of blocks from src/send/ordering.rs to
-- src/receive/dispatch.rs.
use mathlib.Core.Path.{subst}
use lidi.Prelude.{ℕ, ◌≡◌, ◌≢◌, ◌⊎◌, inl, inr, sym, Option, none, some, List, [], ◌∷◌, map}
use lidi.Prelude.Outcome.{ok, panic}
use lidi.Protocol.RaptorQ.{RaptorQ}
use lidi.Protocol.Block.{end, Block, ClientId, client_id, block_type}
use lidi.Send.Client.Carries.{Carries, last, more, Transfer, begin}
use lidi.Receive.Dispatch.Isolates
use lidi.Receive.Dispatch.{Event, message, takes, drops}
use lidi.Receive.Dispatch.Isolates.{
  Foreign, stop, taking, dropping, Body, taking_on, dropping_on, Woven, first, earlier,
  earlier_take, earlier_drop,
}

-- The blocks of client `i`, in order, among blocks of other clients whose types can be read or not.
pub data Among (i : ClientId) : List Block → List Block → Type 0 where
  nothing : Among i [] []
  own : (b : Block) (mine all : List Block) → Among i mine all → Among i (b ∷ mine) (b ∷ all)
  foreign :
      (b : Block) (j : ClientId) (mine all : List Block)
      → client_id b ≡ ok j
      → j ≢ i
      → block_type b ≢ panic
      → Among i mine all
      → Among i mine (b ∷ all)

-- What comes to the dispatcher, whatever the workers do in between.
abbrev pub messages : List Event → List (Option Block)
messages [] = []
messages (message m ∷ events) = m ∷ messages events
messages (takes k ∷ events) = messages events
messages (drops j k ∷ events) = messages events

abbrev pub Closes : ClientId → Option Block → Type 0
Closes i none = ⊥
Closes i (some b) = (block_type b ≡ ok end) × (client_id b ≡ ok i)

-- No worker of client `i` drops its end before the client's end block has come.
abbrev pub Keeps : ClientId → List Event → Type 0
Keeps i [] = Unit
Keeps i (message m ∷ events) = Closes i m ⊎ Keeps i events
Keeps i (takes k ∷ events) = Keeps i events
Keeps i (drops j k ∷ events) = (j ≢ i) × Keeps i events

-- One message, and those behind it.
tail_same :
    {m n : Option Block} {ms ns : List (Option Block)} → (m ∷ ms) ≡ (n ∷ ns) → (m ≡ n) × (ms ≡ ns)
tail_same e = (cc, cc)

keeps_on : {A B : Type 0} → A ⊎ B → ¬ A → B
keeps_on (inl a) n = absurd (n a)
keeps_on (inr b) n = b

Among-Foreign :
    {i : ClientId} {all : List Block} (events : List Event)
    → messages events ≡ map some all
    → Among i [] all
    → Foreign (λ j. Unit) events
Among-Foreign [] e a = stop
Among-Foreign (takes k ∷ events) e a = taking k events (Among-Foreign events e a)
Among-Foreign (drops j k ∷ events) e a = dropping j k events (Among-Foreign events e a)
Among-Foreign (message m ∷ events) e nothing = cc
Among-Foreign (message m ∷ events) e (foreign b j _ all owner ne readable a) =
    let (same, rest) = tail_same e in
    subst (λ x. Foreign (λ j. Unit) (message x ∷ events)) (sym same)
      (Isolates.foreign b j events owner tt readable (Among-Foreign events rest a))

Among-Body :
    {q : RaptorQ} {i : ClientId} {bytes : List ℕ} {mine all : List Block} (events : List Event)
    → Carries q i bytes mine
    → messages events ≡ map some all
    → Among i mine all
    → Keeps i events
    → Body i mine events
Among-Body (takes k ∷ events) c e a keeps = taking_on k _ events (Among-Body events c e a keeps)
Among-Body (drops j k ∷ events) c e a keeps =
    dropping_on j k _ events keeps.0 (Among-Body events c e a keeps.1)
Among-Body events c e nothing keeps = elim c [ ]
Among-Body [] c e (foreign b j _ all owner ne readable a) keeps = cc
Among-Body [] c e (own b mine all a) keeps = cc
Among-Body {i = i} (message m ∷ events) c e (foreign b j mine all owner ne readable a) keeps =
    let (same, rest) = tail_same e in
    let still =
      keeps_on keeps (λ closes. let c' = subst (Closes i) same closes in ne (cc (owner, c'.1))) in
    subst (λ x. Body i mine (message x ∷ events)) (sym same)
      (Isolates.other b j _ events owner ne readable (Among-Body events c rest a still))
Among-Body {i = i} (message m ∷ events) (last b reads sized) e (own _ _ all a) keeps =
    let (same, rest) = tail_same e in
    subst (λ x. Body i (b ∷ []) (message x ∷ events)) (sym same)
      (Isolates.last b events reads.kind reads.owner (Among-Foreign events rest a))
Among-Body {i = i} (message m ∷ events) (more head tail b blocks reads sized made c) e
      (own _ _ all a) keeps =
    let (same, rest) = tail_same e in
    let still =
      keeps_on keeps (λ closes. let c' = subst (Closes i) same closes in cc (reads.kind, c'.0)) in
    subst (λ x. Body i (b ∷ blocks) (message x ∷ events)) (sym same)
      (Isolates.mine b blocks events reads.kind reads.owner (Among-Body events c rest a still))

pub Among-Woven :
    {q : RaptorQ} {i : ClientId} {bytes : List ℕ} {mine all : List Block} (events : List Event)
    → Transfer q i bytes mine
    → messages events ≡ map some all
    → Among i mine all
    → Keeps i events
    → Woven i mine events
Among-Woven (takes k ∷ events) t e a keeps =
    earlier_take k _ events (Among-Woven events t e a keeps)
Among-Woven (drops j k ∷ events) t e a keeps =
    earlier_drop j k _ events (Among-Woven events t e a keeps.1)
Among-Woven events t e nothing keeps = elim t [ ]
Among-Woven [] t e (foreign b j _ all owner ne readable a) keeps = cc
Among-Woven [] t e (own b mine all a) keeps = cc
Among-Woven {i = i} (message m ∷ events) t e (foreign b j mine all owner ne readable a) keeps =
    let (same, rest) = tail_same e in
    let still =
      keeps_on keeps (λ closes. let c' = subst (Closes i) same closes in ne (cc (owner, c'.1))) in
    subst (λ x. Woven i mine (message x ∷ events)) (sym same)
      (earlier b j _ events owner readable (Among-Woven events t rest a still))
Among-Woven {i = i} (message m ∷ events) (begin b blocks reads sized c) e (own _ _ all a) keeps =
    let (same, rest) = tail_same e in
    let still =
      keeps_on keeps (λ closes. let c' = subst (Closes i) same closes in cc (reads.kind, c'.0)) in
    subst (λ x. Woven i (b ∷ blocks) (message x ∷ events)) (sym same)
      (first b blocks events reads.kind reads.owner (Among-Body events c rest a still))
