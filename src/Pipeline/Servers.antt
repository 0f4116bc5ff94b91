-- ===== src/Pipeline/Servers.antt =====
-- The server workers of src/send/server.rs side by side: what they queue of one client.

use lidi.Prelude.{
  ℕ, suc, ◌^◌, ◌≤◌, ◌<◌, ◌≡◌, ◌≢◌, ◌⊎◌, inl, inr, refl, Option, none, some, Bool, false, List, [],
  ◌∷◌, ◌++◌, All, length, arith,
}
use lidi.Prelude.Outcome.{ok}
use lidi.Protocol.RaptorQ.{RaptorQ}
use lidi.Protocol.Block.{Block, ClientId}
use lidi.Stream.{Reader}
use lidi.Send.Parallel.{Serving, State, admitted, Reach, fresh}
use lidi.Send.Client.{run}
use lidi.Send.Client.Rounds.{Setting}
use lidi.Send.Encoding.InOrder.{somes}
use lidi.Pipeline.Among.{Among, nothing}
use lidi.Pipeline.Room.{Room, counted, Step-Room}
use lidi.Pipeline.Moves.{Inv, sent_all}
use lidi.Pipeline.Steps.{Step-After}
use lidi.Pipeline.Tracks.{Once, join_last}

module _ (capacity : ℕ → ℕ → ℕ) (flush : Bool) (q : RaptorQ) (nb_encode_threads : ℕ)
    (interval : Option ℕ) (set : (id : ClientId) → id < 2 ^ 32 → Setting capacity q id)
    (i : ClientId) (apart : (interval ≡ none) ⊎ (i ≢ 0)) where
  -- Before the client is admitted, nothing of it is served or queued.
  pending :
      (max_clients : ℕ) (clients : List (Option Reader)) {s : State}
      → length clients < 2 ^ 32
      → Reach capacity flush q nb_encode_threads interval (fresh max_clients clients) s
      → Room s × (s.counter ≤ i → Inv i [] none [] s)
  pending max_clients clients few Reach.here = (
    omega (arith, few),
    λ _. record { serving = tt; queued = nothing; whole = refl; aborts = tt },
  )
  pending max_clients clients few (Reach.next r step) =
      let (room, inv) = pending max_clients clients few r in
      let (le, room') = Step-Room capacity flush q nb_encode_threads interval step room in
      (
        room',
        λ h.
            let a =
              Step-After capacity flush q nb_encode_threads interval set i apart (inv (omega arith))
                step room (λ more. omega arith) in
            sent_all i a.inv (a.quiet refl),
      )

  -- Once it is admitted, it is tracked.
  tracked :
      {blocks : List Block} {t u : State} (slot : Option (List Block)) (sent : List Block)
      → Inv i blocks slot sent t
      → i < t.counter
      → Room t
      → Reach capacity flush q nb_encode_threads interval t u
      → (slot' : Option (List Block)) × (sent' : List Block) × Inv i blocks slot' sent' u
        × (i < u.counter)
        × Room u
  tracked slot sent v h room Reach.here = (slot, sent, v, h, room)
  tracked slot sent v h room (Reach.next r step) =
      let (slot', sent', v', h', room') = tracked slot sent v h room r in
      let (le, room'') = Step-Room capacity flush q nb_encode_threads interval step room' in
      let a =
        Step-After capacity flush q nb_encode_threads interval set i apart v' step room'
          (λ more. omega arith) in
      (a.slot', a.sent', a.inv, omega arith, room'')

  is_served :
      (left : List Block) (ws : List Serving)
      → Once i left ws
      → ¬ All (λ (w : Serving). w.id ≢ i) ws
  is_served left [] once h = once
  is_served left (w ∷ ws) (inl (m, _)) h = h.0 m.0
  is_served left (w ∷ ws) (inr (_, once)) h = is_served left ws once h.1

  not_served :
      {blocks sent : List Block} {u : State} (slot : Option (List Block))
      → Inv i blocks slot sent u
      → All (λ (w : Serving). w.id ≢ i) u.serving
      → slot ≡ none
  not_served none v h = refl
  not_served (some left) v h = absurd (is_served left _ v.serving h)

  -- However many servers run and however they are interleaved, with each other and with the heartbeats,
  -- for fewer than 2^32 clients and blocks that can be made: once a client whose worker ends well has been admitted, with the
  -- number `i`, and is no longer served, exactly its blocks are queued for it, in order, among
  -- blocks of others. There are no heartbeats, or `i` is not 0, their number.
  pub servers-Among :
      (max_clients : ℕ) (clients : List (Option Reader)) (s u : State) (before after : List Reader)
      (client : Reader) (free : ℕ) (blocks : List Block)
      → length clients < 2 ^ 32
      → Reach capacity flush q nb_encode_threads interval (fresh max_clients clients) s
      → s.counter ≡ i
      → s.waiting ≡ before ++ client ∷ after
      → s.permits ≡ suc free
      → run capacity flush q i client ≡ some (blocks, ok tt)
      → Reach capacity flush q nb_encode_threads interval
          (admitted s (before ++ after) free blocks false)
          u
      → All (λ (w : Serving). w.id ≢ i) u.serving
      → Among i blocks (somes u.to_ordering)
  servers-Among max_clients clients s u before after client free blocks few r at waits permit ran r'
        done =
      let (room, inv) = pending max_clients clients few r in
      let v = inv (omega arith) in
      let (more, kept) = counted s before after client free blocks false waits room refl in
      let (slot, sent, v', _, _) =
        tracked (some blocks) []
          (record {
            serving =
                join_last i blocks s.serving
                  (record { id = s.counter; left = blocks; failed = false }) v.serving
                  (at, refl, refl);
            queued = v.queued;
            whole = refl;
            aborts = v.aborts;
          })
          (omega arith) kept r' in
      (sent_all i v' (not_served slot v' done)).queued
