-- ===== src/Examples/Clients.antt =====
-- The theorems about the threads for clients at a concrete input.
use mathlib.Core.List.{Mem, Perm, forall_mem-cons, not-mem-nil}
use mathlib.Core.Bool.{Bool-set}
use lidi.Prelude.{◌≡◌, ◌⊎◌, refl, true, List, [], ◌∷◌, map, arith}
use lidi.Prelude.Outcome.{ok, err}
use lidi.Protocol.Block.{start, end, Block, ClientId, block_type, payload, client_id}
use lidi.Protocol.Block.Layout.{layout}
use lidi.Stream.{write_all, flush}
use lidi.Receive
use lidi.Receive.Client.{Message, block, run, deliver, io}
use lidi.Receive.Client.Delivers.{holding}
use lidi.Receive.Clients.{Transferring}
use lidi.Receive.Parallel.{
  State, Step, Reach, outcome, returns, take, acquire, finish, here, next, fresh,
}
use lidi.Receive.Parallel.Serves.{clients_served, clients_progress}

-- Client 1 can be written to, and client 2 cannot be reached.
abbrev first : Transferring
first = record {
  client_id = 1;
  client_new = ok (holding []);
  messages =
      block (layout start 1 0 (0 ∷ 0 ∷ 0 ∷ 0 ∷ 0 ∷ 0 ∷ 0 ∷ []))
      ∷ block (layout end 1 3 (7 ∷ 8 ∷ 9 ∷ 0 ∷ 0 ∷ 0 ∷ 0 ∷ []))
      ∷ [];
}

abbrev second : Transferring
second = record {
  client_id = 2;
  client_new = err (Receive.Client.Error.other "unreachable");
  messages = [];
}

first_comes_back : returns (outcome true first).1 ≡ true
unfolding Receive.Client.start run deliver block_type payload lidi.Protocol.Block.payload_len
    write_all flush
first_comes_back = refl

second_comes_back : returns (outcome true second).1 ≡ true
unfolding Receive.Client.start
second_comes_back = refl

abbrev both : List Transferring
both = first ∷ second ∷ []

-- Both are taken and served, and the second ends first.
abbrev last : State
last = record (fresh 2 both) {
  for_clients = [];
  done = outcome true second ∷ outcome true first ∷ [];
}

Reach-served :
    Reach true (fresh 2 both) (record last { serving = both; idle = 0; permits = 0; done = [] })
Reach-served =
    next
      (next (next (next here (take first _ 1 refl refl refl)) (take second [] 0 refl refl refl))
        (acquire [] (second ∷ []) first 1 refl refl refl))
      (acquire [] [] second 0 refl refl refl)

Reach-last : Reach true (fresh 2 both) last
Reach-last =
    next (next Reach-served (finish (first ∷ []) [] second refl second_comes_back refl))
      (finish [] [] first refl first_comes_back refl)

clients_served_example :
    (served : List Transferring) × Perm both served × (last.done ≡ map (outcome true) served)
clients_served_example = clients_served true 2 both last Reach-last refl

all_return : (x : Transferring) → Mem x both → returns (outcome true x).1 ≡ true
all_return =
    let told = λ (x : Transferring). Bool-set (returns (outcome true x).1) true in
    (forall_mem-cons told).1 (
      first_comes_back,
      (forall_mem-cons told).1 (second_comes_back, λ x m. absurd (not-mem-nil m)),
    )

abbrev serving_both : State
serving_both = record last { serving = both; idle = 0; permits = 0; done = [] }

clients_progress_example : (both ≡ []) ⊎ ((t : State) × Step true serving_both t)
clients_progress_example = clients_progress true 2 both _ (omega arith) all_return Reach-served
