-- ===== src/Pipeline/Steps.antt =====
-- What a step of the servers of src/send/server.rs does to the blocks of one client.
use mathlib.Core.Path.{subst}
use lidi.Prelude.{
  ◌∷◌, ℕ, ◌+◌, ◌^◌, ◌≤◌, ◌<◌, ◌≡◌, ◌≢◌, ◌⊎◌, inl, inr, sym, ◌∙◌, Option, none, some, Bool, true,
  false, List, [], ◌++◌, arith, append-nil,
}
use lidi.Prelude.Outcome.{ok, err}
use lidi.Protocol.RaptorQ.{RaptorQ}
use lidi.Protocol.Block.{Block, ClientId, heartbeat, serialize_overhead}
use lidi.Send.Parallel.{State, Step}
use lidi.Send.Client.Rounds.{Setting}
use lidi.Send.Encoding.InOrder.{somes, somes-append}
use lidi.Pipeline.Among.{Among}
use lidi.Pipeline.Owned.{Reads-Owned, run-Owned}
use lidi.Protocol.Block.RoundTrip.{new-Reads}
use lidi.Pipeline.Room.{Room, counted}
use lidi.Pipeline.Moves.{
  Inv, After, Among-pass_some, same_slot, admit-After, put-After, gone-After, fail-After,
  abort-After,
}

pub somes-mark : {A : Type 0} (l : List (Option A)) → somes (l ++ none ∷ []) ≡ somes l
somes-mark l = somes-append l (none ∷ []) ∙ append-nil (somes l)

module _ (capacity : ℕ → ℕ → ℕ) (flush : Bool) (q : RaptorQ) (nb_encode_threads : ℕ)
    (interval : Option ℕ) (set : (id : ClientId) → id < 2 ^ 32 → Setting capacity q id)
    (i : ClientId) (apart : (interval ≡ none) ⊎ (i ≢ 0)) where
  overhead : serialize_overhead ≤ q.transfer_length
  overhead = let s = set 0 (omega arith) in omega (arith, s.room)

  not_mine : (n : ℕ) → interval ≡ some n → 0 ≢ i
  not_mine n e = elim apart [ inl none_set ↦ cc (none_set, e) | inr ne ↦ λ z. ne (sym z) ]

  pub Step-After :
      {blocks sent : List Block} {slot : Option (List Block)} {s t : State}
      → Inv i blocks slot sent s
      → Step capacity flush q nb_encode_threads interval s t
      → Room s
      → (s.counter < t.counter → s.counter ≢ i)
      → After i blocks slot t
  Step-After {blocks} {sent} {slot} {s} v (Step.take client rest' others e idle et) room ne =
      subst (After i blocks slot) (sym et) (
        same_slot i
          (record { serving = v.serving; queued = v.queued; whole = v.whole; aborts = v.aborts }))
  Step-After {blocks} {sent} {slot} {s} v (Step.stop rest' others e idle et) room ne =
      subst (After i blocks slot) (sym et) (
        same_slot i
          (record { serving = v.serving; queued = v.queued; whole = v.whole; aborts = v.aborts }))
  Step-After {blocks} {sent} {slot} {s} v (Step.mark before after others e et) room ne =
      subst (After i blocks slot) (sym et) (
        same_slot i (record {
          serving = v.serving;
          queued = subst (Among i sent) (sym (somes-mark s.to_ordering)) v.queued;
          whole = v.whole;
          aborts = v.aborts;
        }))
  Step-After {blocks} {sent} {slot} {s} v
        (Step.admit before after client free queue e permit ran et) room ne =
      subst (After i blocks slot) (sym et) (
        admit-After i before after client free queue false e
          (run-Owned capacity flush q s.counter client queue (ok tt)
            (set s.counter (omega (arith, room))) ran)
          (ne (counted s before after client free queue false e room et).0) room v)
  Step-After {blocks} {sent} {slot} {s} v
        (Step.admit_failing before after client free queue error e permit ran et) room ne =
      subst (After i blocks slot) (sym et) (
        admit-After i before after client free queue true e
          (run-Owned capacity flush q s.counter client queue (err error)
            (set s.counter (omega (arith, room))) ran)
          (ne (counted s before after client free queue true e room et).0) room v)
  Step-After {blocks} {sent} {slot} {s} v (Step.put before after w b left e el et) room ne =
      subst (After i blocks slot) (sym et) (put-After i before after w b left e el v)
  Step-After {blocks} {sent} {slot} {s} v (Step.signal before after w e el well et) room ne =
      subst (After i blocks slot) (sym et)
        (gone-After i before after w (s.permits + 1) (s.idle + 1) e el v)
  Step-After {blocks} {sent} {slot} {s} v (Step.fail before after w b e el failed made et) room ne =
      subst (After i blocks slot) (sym et)
        (fail-After i capacity q before after w b (s.permits + 1) overhead e failed made v)
  Step-After {blocks} {sent} {slot} {s} v (Step.abort_client before after b e et) room ne =
      subst (After i blocks slot) (sym et) (abort-After i before after b (s.idle + 1) e v)
  Step-After {blocks} {sent} {slot} {s} v (Step.beat n b on made et) room ne =
      subst (After i blocks slot) (sym et) (
        same_slot i (record {
          serving = v.serving;
          queued =
              Among-pass_some s.to_ordering b
                (
                  0,
                  Reads-Owned (new-Reads capacity heartbeat q 0 none b overhead (omega arith) made),
                  not_mine n on,
                )
                v.queued;
          whole = v.whole;
          aborts = v.aborts;
        }))
