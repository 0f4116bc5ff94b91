-- ===== src/Send/Client/Splits.antt =====
-- The blocks that src/send/client.rs makes of a client's stream.
use mathlib.Core.Path.{subst}
use lidi.Prelude.{
  ℕ, zero, suc, ◌-◌, ◌<◌, ◌≡◌, refl, ap, sym, ◌∙◌, none, some, Bool, ◌||◌, List, [], ◌∷◌, ◌++◌,
  length, take, drop, arith, leb, All, Bool-cases, inl, inr, length-append, length-take,
  length-drop, append_assoc, take-append-drop, append-nil, take_all,
}
use lidi.Prelude.Outcome.{Outcome, ok, err}
use lidi.Protocol.RaptorQ.{RaptorQ}
use lidi.Protocol.Block.{start, data_block, end, ClientId, Block, max_data_len}
use lidi.Protocol.Block.Layout.{length-new}
use lidi.Protocol.Block.RoundTrip.{Reads, new-Reads}
use lidi.Stream.{Turn, Reader, read, failed}
use lidi.Stream.Laws.{Works, Tried, read-Tried}
use lidi.Send.Client.{Error, io, before, loop, run, on_read}
use lidi.Send.Client.Carries.{
  Carries, last, more, Transfer, begin, no_part, part, Ended, whole, cut,
}
use lidi.Send.Client.Rounds.{
  Setting, not_full, Made, make, round-read, round-failed, on_read-end, on_read-again, on_read-sent,
  loop-round,
}

module _ (capacity : ℕ → ℕ → ℕ) (flush : Bool) (q : RaptorQ) (id : ClientId)
    (set : Setting capacity q id) where
  record Split (fuel : ℕ) (filled : List ℕ) (client : Reader) : Type 0 where
    blocks : List Block
    result : Outcome Error Unit
    done : loop capacity flush q id fuel filled client ≡ some (blocks, result)
    ended : Ended q id (filled ++ client.input) (All Works client.schedule) blocks result

  -- A read has failed: what is in the buffer is not sent.
  Split-failed :
      (fuel : ℕ) (filled : List ℕ) (client : Reader)
      → read client (max_data_len q - length filled) ≡ err failed
      → ¬ All Works client.schedule
      → Split (suc fuel) filled client
  Split-failed fuel filled client e fails = record {
    blocks = [];
    result = err (io failed);
    done =
        loop-round capacity flush q id set fuel filled client
          (round-failed capacity flush q id set filled client e);
    ended = cut [] (filled ++ client.input) refl no_part fails;
  }

  -- The end of the stream: all that is in the buffer is sent.
  Split-end :
      (fuel : ℕ) (filled : List ℕ) (schedule : List Turn)
      → length filled < max_data_len q
      → Tried (max_data_len q - length filled) (record { input = []; schedule = schedule })
      → Split (suc fuel) filled (record { input = []; schedule = schedule })
  Split-end fuel filled schedule h tried =
      let client : Reader = record { input = []; schedule = schedule } in
      let after : Reader = record { input = drop tried.count []; schedule = tried.after } in
      let m = make capacity flush q id set end filled (omega arith) in
      record {
        blocks = m.block ∷ [];
        result = ok tt;
        done = loop-round capacity flush q id set fuel filled client (
            round-read capacity flush q id set filled client tried
            ∙ ap (λ l. on_read capacity flush q id filled l after)
                (take_all tried.count [] (omega arith))
            ∙ on_read-end capacity flush q id set filled after m);
        ended =
            whole (
              last m.block (subst (Reads m.block end id) (sym (append-nil filled)) m.reads)
                m.sized);
      }

  -- What comes behind a block of data, or behind a read that leaves room in the buffer.
  ended-sent :
      {input head tail : List ℕ} {works works' : Type 0} {blocks : List Block}
      {result : Outcome Error Unit} (m : Made capacity flush q id set data_block head)
      → input ≡ head ++ tail
      → (works → works')
      → Ended q id tail works' blocks result
      → Ended q id input works (m.block ∷ blocks) result
  ended-sent {head = head} {tail = tail} m e kept (whole c) =
      whole (more head tail m.block _ m.reads m.sized e c)
  ended-sent {head = head} m e kept (cut bytes unsent made parts fails) =
      cut (head ++ bytes) unsent
        (e ∙ ap (λ l. head ++ l) made ∙ sym (append_assoc head bytes unsent))
        (part head bytes m.block _ m.reads m.sized refl parts) (λ w. fails (kept w))

  ended-again :
      {input input' : List ℕ} {works works' : Type 0} {blocks : List Block}
      {result : Outcome Error Unit}
      → input' ≡ input
      → (works → works')
      → Ended q id input' works' blocks result
      → Ended q id input works blocks result
  ended-again {blocks = blocks} e kept (whole c) = whole (subst (λ l. Carries q id l blocks) e c)
  ended-again e kept (cut bytes unsent made parts fails) =
      cut bytes unsent (sym e ∙ made) parts (λ w. fails (kept w))

  -- A round that has read something: its read, and the rest of the loop for every buffer.
  Split-round :
      (fuel : ℕ) (filled : List ℕ) (x : ℕ) (xs : List ℕ) (schedule : List Turn)
      → length filled < max_data_len q
      → (tried : Tried
          (max_data_len q - length filled)
          (record { input = x ∷ xs; schedule = schedule }))
      → ((filled' : List ℕ)
          → length filled' < max_data_len q
          → Split fuel filled'
              (record { input = drop tried.count (x ∷ xs); schedule = tried.after }))
      → Split (suc fuel) filled (record { input = x ∷ xs; schedule = schedule })
  Split-round fuel filled x xs schedule h tried rest_of =
      elim (Bool-cases (flush || leb (max_data_len q) (length (filled ++ bytes)))) [
        | inr e ↦
            let rest =
              rest_of (filled ++ bytes)
                (not_full flush (max_data_len q) (length (filled ++ bytes)) e) in
            record {
              blocks = rest.blocks;
              result = rest.result;
              done =
                  loop-round capacity flush q id set fuel filled client (
                    round-read capacity flush q id set filled client tried
                    ∙ on_read-again capacity flush q id set filled bytes _ some_read e)
                  ∙ rest.done;
              ended =
                  ended-again
                    (append_assoc filled bytes left
                      ∙ ap (λ l. filled ++ l) (take-append-drop tried.count (x ∷ xs)))
                    tried.works rest.ended;
            }
        | inl e ↦
            let m = make capacity flush q id set data_block (filled ++ bytes) (
              omega (
                arith,
                length-append filled bytes,
                length-take tried.count (x ∷ xs),
                tried.most,
              )) in
            let rest = rest_of [] (omega arith) in
            record {
              blocks = m.block ∷ rest.blocks;
              result = rest.result;
              done =
                  loop-round capacity flush q id set fuel filled client (
                    round-read capacity flush q id set filled client tried
                    ∙ on_read-sent capacity flush q id set filled bytes _ m some_read e)
                  ∙ ap (before capacity flush q id m.block) rest.done;
              ended =
                  ended-sent m
                    (ap (λ l. filled ++ l) (sym (take-append-drop tried.count (x ∷ xs)))
                      ∙ sym (append_assoc filled bytes left))
                    tried.works rest.ended;
            }
      ]
    where
      client : Reader
      client = record { input = x ∷ xs; schedule = schedule }

      bytes : List ℕ
      bytes = take tried.count (x ∷ xs)

      left : List ℕ
      left = drop tried.count (x ∷ xs)

      some_read : 0 < length bytes
      some_read = omega (arith, length-take tried.count (x ∷ xs), tried.least)

  loop-Split :
      (fuel : ℕ) (filled : List ℕ) (input : List ℕ) (schedule : List Turn)
      → length input < fuel
      → length filled < max_data_len q
      → Split fuel filled (record { input = input; schedule = schedule })
  loop-Split zero filled input schedule hf h = absurd (omega arith)
  loop-Split (suc fuel) filled [] schedule hf h =
      elim (read-Tried (max_data_len q - length filled) [] schedule (omega arith)) [
        | inl tried ↦ Split-end fuel filled schedule h tried
        | inr broke ↦ Split-failed fuel filled _ broke.0 broke.1
      ]
  loop-Split (suc fuel) filled (x ∷ xs) schedule hf h =
      elim (read-Tried (max_data_len q - length filled) (x ∷ xs) schedule (omega arith)) [
        | inl tried ↦ Split-round fuel filled x xs schedule h tried (λ filled' room.
            loop-Split fuel filled' (drop tried.count (x ∷ xs)) tried.after
              (omega (arith, length-drop tried.count (x ∷ xs), tried.least)) room)
        | inr broke ↦ Split-failed fuel filled _ broke.0 broke.1
      ]

  -- The blocks of a client whose reads may fail: a start block, then those of the loop.
  pub run-Ended :
      (client : Reader)
      → (block : Block) × (blocks : List Block) × (result : Outcome Error Unit) × (run capacity
            flush q id client
          ≡ some (block ∷ blocks, result))
        × Reads block start id []
        × (length block ≡ q.transfer_length)
        × Ended q id client.input (All Works client.schedule) blocks result
  unfolding run
  run-Ended client =
      let (block, made, sized) =
        length-new capacity start q id none (omega (arith, set.room)) set.small (omega arith)
          set.exact in
      let split =
        loop-Split (suc (length client.input)) [] client.input client.schedule (omega arith)
          (omega (arith, set.room, set.small)) in
      (
        block,
        split.blocks,
        split.result,
        rw (made, split.done),
        new-Reads capacity start q id none block (omega (arith, set.room)) set.known made,
        sized,
        split.ended,
      )

  works-whole :
      {input : List ℕ} {works : Type 0} {blocks : List Block} {result : Outcome Error Unit}
      → Ended q id input works blocks result
      → works
      → (result ≡ ok tt) × Carries q id input blocks
  works-whole (whole c) w = (refl, c)
  works-whole (cut bytes unsent made parts fails) w = absurd (fails w)

  -- From a client that sends `input`, whatever the sizes of the reads and whether or not `flush` is
  -- set: the worker ends well, and has sent a start block, then data blocks, then an end block, all
  -- of the RaptorQ block's size, whose payloads together are exactly `input`.
  pub run-Transfer :
      (client : Reader)
      → All Works client.schedule
      → (blocks : List Block) × (run capacity flush q id client ≡ some (blocks, ok tt))
        × Transfer q id client.input blocks
  run-Transfer client w =
      let (block, blocks, result, ran, reads, sized, ended) = run-Ended client in
      let (well, carries) = works-whole ended w in
      (
        block ∷ blocks,
        ran ∙ ap (λ r. some (block ∷ blocks, r)) well,
        begin block blocks reads sized carries,
      )
