-- ===== src/Pipeline/Breaks.antt =====
-- A client whose reads may fail, from src/send/server.rs to src/receive/client.rs.
use lidi.Prelude.{
  ℕ, zero, suc, length, ◌≡◌, refl, ap, sym, ◌∙◌, ◌⊎◌, inl, inr, Option, none, some, Bool, true,
  false, List, [], ◌∷◌, ◌++◌, map, replicate, All, append_assoc, append-nil, arith,
}
use lidi.Prelude.Outcome.{Outcome, ok}
use lidi.Stream.{Reader, failed}
use lidi.Stream.Laws.{Works}
use lidi.Protocol.Block.{start, abort, Block, ClientId}
use lidi.Protocol.Block.Layout.{length-new}
use lidi.Protocol.Block.RoundTrip.{Reads, new-Reads}
use lidi.Protocol.RaptorQ.{RaptorQ}
use lidi.Send
use lidi.Send.Client.{Error, io}
use lidi.Send.Client.Carries.{Ended, whole, cut, begin}
use lidi.Send.Client.Rounds.{Setting}
use lidi.Send.Client.Splits.{run-Ended}
use lidi.Send.Server
use lidi.Send.Server.Breaks.{start-well, start-failed}
use lidi.Send.Server.{Action, wait, signal, to_ordering, sends}
use lidi.Receive
use lidi.Receive.Client.{Message, block, client_end}
use lidi.Receive.Client.Delivers.{holding, run-delivers}
use lidi.Receive.Client.Breaks.{run-breaks}

-- The blocks that a server has queued.
abbrev pub blocks_of : List Action → List Block
blocks_of [] = []
blocks_of (wait ∷ actions) = blocks_of actions
blocks_of (signal ∷ actions) = blocks_of actions
blocks_of (to_ordering none ∷ actions) = blocks_of actions
blocks_of (to_ordering (some b) ∷ actions) = b ∷ blocks_of actions

blocks_of-sends :
    (blocks : List Block) (actions : List Action)
    → blocks_of (sends blocks ++ actions) ≡ blocks ++ blocks_of actions
blocks_of-sends [] actions = refl
blocks_of-sends (b ∷ blocks) actions = ap (λ l. b ∷ l) (blocks_of-sends blocks actions)

-- How a client ends at the receiver: well, with all that it sent; or not, after a failed read.
abbrev pub Ends : Bool → List ℕ → Type 0 → Type 0
Ends flag unsent works = ((flag ≡ true) × (unsent ≡ [])) ⊎ ((flag ≡ false) × ¬ works)

blocks_of-marks : (n : ℕ) → blocks_of (replicate n (to_ordering none)) ≡ []
blocks_of-marks zero = refl
blocks_of-marks (suc n) = blocks_of-marks n

blocks_of-round :
    (blocks : List Block) (actions : List Action)
    → blocks_of ((wait ∷ sends blocks ++ signal ∷ []) ++ actions) ≡ blocks ++ blocks_of actions
blocks_of-round blocks actions =
    ap blocks_of (append_assoc (sends blocks) (signal ∷ []) actions)
    ∙ blocks_of-sends blocks (signal ∷ actions)

module _ (capacity : ℕ → ℕ → ℕ) (flush flush' : Bool) (q : RaptorQ) (nb_encode_threads : ℕ)
    (id : ClientId) (set : Setting capacity q id) (client : Reader)
    (rest : List (Option (ClientId × Reader))) (more : List Message) where
  -- What the server has done, and what the receiver makes of the blocks that it has queued.
  pub record Arrived : Type 0 where
    pub actions : List Action
    pub bytes : List ℕ
    pub unsent : List ℕ
    pub flag : Bool
    pub served :
        Send.Server.start capacity flush q nb_encode_threads (some (id, client) ∷ none ∷ rest)
        ≡ some (actions, ok tt)
    pub input : client.input ≡ bytes ++ unsent
    pub written :
        Receive.Client.run flush' (holding []) (map block (blocks_of actions) ++ more)
        ≡ (holding bytes, client_end flag)
    pub ends : Ends flag unsent (All Works client.schedule)

  by_end :
      (b : Block) (blocks : List Block) (result : Outcome Error Unit)
      → Send.Client.run capacity flush q id client ≡ some (b ∷ blocks, result)
      → Reads b start id []
      → length b ≡ q.transfer_length
      → Ended q id client.input (All Works client.schedule) blocks result
      → Arrived
  by_end b blocks _ ran reads sized (whole c) =
      let marks = replicate nb_encode_threads (to_ordering none) in
      record {
        actions = (wait ∷ sends (b ∷ blocks) ++ signal ∷ []) ++ marks;
        bytes = client.input;
        unsent = [];
        flag = true;
        served = start-well capacity flush q nb_encode_threads id client (b ∷ blocks) rest ran;
        input = sym (append-nil client.input);
        written =
            ap (λ l. Receive.Client.run flush' (holding []) (map block l ++ more))
              (blocks_of-round (b ∷ blocks) marks
                ∙ ap (λ l. (b ∷ blocks) ++ l) (blocks_of-marks nb_encode_threads)
                ∙ append-nil (b ∷ blocks))
            ∙ run-delivers flush' more (begin b blocks reads sized c);
        ends = inl (refl, refl);
      }
  by_end b blocks _ ran reads sized (cut bytes unsent made parts fails) =
      let marks = replicate nb_encode_threads (to_ordering none) in
      let (a, aborted, _) =
        length-new capacity abort q id none (omega (arith, set.room)) set.small (omega arith)
          set.exact in
      record {
        actions = (wait ∷ sends (b ∷ blocks) ++ signal ∷ []) ++ to_ordering (some a) ∷ marks;
        bytes = bytes;
        unsent = unsent;
        flag = false;
        served =
            start-failed capacity flush q nb_encode_threads id client (b ∷ blocks) rest (io failed)
              a ran aborted;
        input = made;
        written =
            ap (λ l. Receive.Client.run flush' (holding []) (map block l ++ more))
              (blocks_of-round (b ∷ blocks) (to_ordering (some a) ∷ marks)
                ∙ ap (λ l. (b ∷ blocks) ++ a ∷ l) (blocks_of-marks nb_encode_threads))
            ∙ run-breaks flush' a
                (new-Reads capacity abort q id none a (omega (arith, set.room)) set.known aborted) b
                more reads parts;
        ends = inr (refl, fails);
      }

  -- With room for data in a RaptorQ block below 2^32 bytes, vectors of exactly the capacity asked for,
  -- and a client number below 2^32: whatever the client's reads do, a server worker that takes it and
  -- then the end mark returns well. The receiver's worker for the blocks that it has queued, on a
  -- connection that takes all and whatever comes behind them, writes a prefix of what the client sent:
  -- all of it, and the client ends with `true`; or the client ends with `false`, which it does only if
  -- a read can fail.
  pub streams_break : Arrived
  streams_break =
      let (b, blocks, result, ran, reads, sized, ended) =
        run-Ended capacity flush q id set client in
      by_end b blocks result ran reads sized ended
