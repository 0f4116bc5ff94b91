-- ===== src/Pipeline/Losses.antt =====
-- A link that loses datagrams, from src/send/udp.rs to src/receive/dispatch.rs.
use mathlib.Core.Path.{subst}
use lidi.Prelude.{
  ℕ, ◌+◌, ◌%◌, ◌≤◌, ◌<◌, ◌≡◌, refl, ap, sym, ◌∙◌, some, List, [], ◌∷◌, map, length, take, All,
  All-append, length-map, concat, arith,
}
use lidi.Protocol.Block.{Block}
use lidi.Protocol.Crate.{Raptorq, Laws}
use lidi.Protocol.RaptorQ.{RaptorQ, encode, decode, min_nb_packets}
use lidi.Receive.Decode.{State, Reach}
use lidi.Receive.Decode.InOrder.{Decodes, dispatched, fresh, decoders_complete}
use lidi.Receive.Reblock.{set_dispatch, run, init}
use lidi.Receive.Reblock.Order.{InOrder, emitted, run-nil, run-InOrder}
use lidi.Protocol.RaptorQ.Coding.{length-encode, decode-take-encode}
use lidi.Receive.Clients.{receive_loop}
use lidi.Turn.{Consecutive, numbered, numbered-Consecutive}
use lidi.Pipeline.{Usable, events, to_decode, first_dispatch, reblocked}
use lidi.Pipeline.Wire.{Sized, serialized, fitting, carrying, deserialized, events-feed}

-- The first list is the second one with some members left out.
pub data Sublist {A : Type 0} : List A → List A → Type 0 where
  nothing : Sublist [] []
  kept : (a : A) (l l' : List A) → Sublist l l' → Sublist (a ∷ l) (a ∷ l')
  lost : (a : A) (l l' : List A) → Sublist l l' → Sublist l (a ∷ l')

All-Sublist : {A : Type 0} (P : A → Type 0) {l l' : List A} → Sublist l l' → All P l' → All P l
All-Sublist P nothing h = h
All-Sublist P (kept a l l' s) h = (h.0, All-Sublist P s h.1)
All-Sublist P (lost a l l' s) h = All-Sublist P s h.1

Sublist_all : {A : Type 0} (l : List A) → Sublist l l
Sublist_all [] = nothing
Sublist_all (a ∷ l) = kept a l l (Sublist_all l)

pub consecutive : {c : ℕ} (blocks : List Block) → c ≡ 0 → Consecutive c (numbered 0 blocks)
consecutive blocks e =
    subst (λ c. Consecutive c (numbered 0 blocks)) (sym e) (numbered-Consecutive 0 blocks)

module _ (crate : Raptorq) (q : RaptorQ) where
  pub dispatched-numbered :
      (id : ℕ) (blocks : List Block) → dispatched crate q (numbered id blocks) ≡ map some blocks
  dispatched-numbered id [] = refl
  dispatched-numbered id (b ∷ blocks) =
      ap (λ l. some b ∷ l) (dispatched-numbered ((id + 1) % 256) blocks)

  -- For each block, numbered from `id` on, what has come through of its datagrams: `min_nb_packets`
  -- of them at least, of which the first so many can be decoded to the block.
  pub data Survives : ℕ → List Block → List (List (List ℕ)) → Type 0 where
    silent : (id : ℕ) → Survives id [] []
    through :
        (id : ℕ) (b : Block) (blocks : List Block) (got : List (List ℕ))
        (rest : List (List (List ℕ)))
        → Sublist got (map crate.serialize (encode crate q id b))
        → min_nb_packets q ≤ length got
        → decode crate q id (take (min_nb_packets q) (map crate.deserialize got)) ≡ some b
        → Survives ((id + 1) % 256) blocks rest
        → Survives id (b ∷ blocks) (got ∷ rest)

module _ (crate : Raptorq) (laws : Laws crate) (q : RaptorQ) (mtu : ℕ) (u : Usable q mtu) where
  Survives-InOrder :
      {id : ℕ} {blocks : List Block} {got : List (List (List ℕ))}
      → id < 256
      → Sized q blocks
      → Survives crate q id blocks got
      → InOrder crate (min_nb_packets q) id got
  Survives-InOrder hid sized (silent id) = tt
  Survives-InOrder hid sized (through id b blocks got rest s enough decoded left) = (
    All-Sublist _ s (carrying crate laws q mtu u id b hid sized.0),
    enough,
    Survives-InOrder (omega arith) sized.1 left,
  )

  Survives-fits :
      {id : ℕ} {blocks : List Block} {got : List (List (List ℕ))}
      → id < 256
      → Sized q blocks
      → Survives crate q id blocks got
      → All (λ datagram. length datagram ≤ mtu) (concat got)
  Survives-fits hid sized (silent id) = tt
  Survives-fits hid sized (through id b blocks got rest s enough decoded left) =
      All-append _ got (concat rest) (All-Sublist _ s (fitting crate laws q mtu u id b hid sized.0))
        (Survives-fits (omega arith) sized.1 left)

  Survives-Decodes :
      {id : ℕ} {blocks : List Block} {got : List (List (List ℕ))}
      → Survives crate q id blocks got
      → Decodes crate q (to_decode (emitted crate (min_nb_packets q) id got)) (numbered id blocks)
  Survives-Decodes (silent id) = tt
  Survives-Decodes (through id b blocks got rest s enough decoded left) =
      (refl, decoded, Survives-Decodes left)

  -- What the reblock worker does with the datagrams that come through.
  reblocked-Survives :
      (b : Block) (blocks : List Block) (got : List (List ℕ)) (rest : List (List (List ℕ)))
      → Sized q (b ∷ blocks)
      → Survives crate q 0 (b ∷ blocks) (got ∷ rest)
      → reblocked crate q mtu (concat (got ∷ rest))
        ≡ set_dispatch 0 ∷ emitted crate (min_nb_packets q) 0 (got ∷ rest)
  unfolding reblocked
  reblocked-Survives b blocks got rest sized s =
      ap (run crate (min_nb_packets q) (init crate.Packet))
        (events-feed mtu (concat (got ∷ rest)) (Survives-fits (omega arith) sized s))
      ∙ run-InOrder crate (min_nb_packets q) (omega (arith, u.small, u.some_symbol)) 0 got rest
          (omega arith) (Survives-InOrder (omega arith) sized s)

  -- What the decoders are given, and where their counter stands.
  pub queue-Decodes :
      (blocks : List Block) (got : List (List (List ℕ)))
      → Sized q blocks
      → Survives crate q 0 blocks got
      → (first_dispatch (reblocked crate q mtu (concat got)) ≡ 0)
        × Decodes crate q (to_decode (reblocked crate q mtu (concat got))) (numbered 0 blocks)
  unfolding reblocked events receive_loop
  queue-Decodes [] _ sized (silent _) =
      let e = run-nil crate (min_nb_packets q) (init crate.Packet) in
      (
        ap first_dispatch e,
        subst (λ actions. Decodes crate q (to_decode actions) (numbered 0 [])) (sym e) (tt {0}),
      )
  queue-Decodes (b ∷ blocks) [] sized s = elim s [ ]
  queue-Decodes (b ∷ blocks) (got ∷ rest) sized s =
      let e = reblocked-Survives b blocks got rest sized s in
      (
        ap first_dispatch e,
        subst (λ actions. Decodes crate q (to_decode actions) (numbered 0 (b ∷ blocks))) (sym e)
            (Survives-Decodes s),
      )

  -- Blocks of the RaptorQ block's size over a link that loses datagrams, but none overtakes another:
  -- if of each block at least `min_nb_packets` datagrams come through, of which the first so many
  -- can be decoded to the block, then up to 255 decoding threads, in whatever order they run, have
  -- dispatched exactly these blocks, in order, when they have no work left, and reported no loss.
  pub losses_repaired :
      (decoders : ℕ) (blocks : List Block) (got : List (List (List ℕ))) (d : State crate.Packet)
      → decoders ≤ 255
      → Sized q blocks
      → Survives crate q 0 blocks got
      → Reach crate q
          (fresh crate q decoders
            (first_dispatch (reblocked crate q mtu (concat got)))
            (to_decode (reblocked crate q mtu (concat got))))
          d
      → d.for_decode ≡ []
      → d.waiting ≡ []
      → d.to_dispatch ≡ map some blocks
  losses_repaired decoders blocks got d few sized s r empty idle =
      let (zero_first, decodes) = queue-Decodes blocks got sized s in
      decoders_complete crate q decoders (first_dispatch (reblocked crate q mtu (concat got)))
        (to_decode (reblocked crate q mtu (concat got))) (numbered 0 blocks) d few
        (omega (arith, zero_first)) decodes (consecutive blocks zero_first) r empty idle
      ∙ dispatched-numbered crate q 0 blocks

  -- When nothing is lost.
  pub serialized-Survives :
      (id : ℕ) (blocks : List Block)
      → id < 256
      → Sized q blocks
      → Survives crate q id blocks (serialized crate q id blocks)
  serialized-Survives id [] hid sized = silent id
  serialized-Survives id (b ∷ blocks) hid sized =
      through id b blocks (map crate.serialize (encode crate q id b))
        (serialized crate q ((id + 1) % 256) blocks) (Sublist_all _)
        (omega (
          arith,
          length-map {0, 0} crate.serialize (encode crate q id b),
          length-encode crate laws q u.codable id b hid sized.0,
          u.enough,
          u.small,
          u.codable.few,
          u.codable.symbols,
        ))
        (ap (λ l. decode crate q id (take (min_nb_packets q) l))
            (deserialized crate laws q mtu u (encode crate q id b))
          ∙ decode-take-encode crate laws q u.codable id b hid sized.0 (min_nb_packets q)
              (omega (arith, u.small)))
        (serialized-Survives ((id + 1) % 256) blocks (omega arith) sized.1)
