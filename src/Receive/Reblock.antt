-- ===== src/Receive/Reblock.antt =====
-- src/receive/reblock.rs: packets are grouped by block number, within a window of 127 numbers that
-- slides over the 256 values of a `u8`. The vectors of 256 entries are functions of the number.
pub mod Window
pub mod Drain
pub mod Silent
pub mod Holds
pub mod Order
use mathlib.Core.Option
use lidi.Prelude.{
  ℕ, zero, suc, ◌+◌, ◌-◌, ◌%◌, Option, none, some, Bool, true, false, not, ◌&&◌, ◌||◌, List, [],
  ◌∷◌, ◌++◌, ltb, leb, ◌==◌, if◌then◌else◌, length, is_empty, map,
}
use lidi.Prelude.Outcome.{Outcome, ok, err, panic, ◌>>=◌}
use lidi.Protocol.Crate.{Raptorq}
use lidi.Receive.{Reassembled, error, block, Datagrams, single, multiple}

abbrev pub window_width : ℕ
window_width = 127

-- `u8::wrapping_add`
abbrev pub wrapping_add : ℕ → ℕ → ℕ
wrapping_add a b = (a + b) % 256

abbrev pub update : {A : Type 0} → (ℕ → A) → ℕ → A → ℕ → A
update f i v j = if j == i then v else f j

-- The local variables of `start`.
pub record State (P : Type 0) : Type 0 where
  pub blocks_data : ℕ → List P
  pub blocks_ignore : ℕ → Bool
  pub cur_id : ℕ
  pub reset : Bool

abbrev pub init : (P : Type 0) → State P
init P = record { blocks_data = λ id. []; blocks_ignore = λ id. true; cur_id = 0; reset = true }

-- What `start` does to the shared data: a message to `to_decode`, or a write to `block_to_dispatch`.
pub data Action (P : Type 0) : Type 0 where
  send : Reassembled P → Action P
  set_dispatch : ℕ → Action P

-- What `recv_timeout` returns.
pub data Event : Type 0 where
  timeout disconnected : Event
  received : Datagrams → Event

-- `while id != last { blocks_ignore[id] = false; id = id.wrapping_add(1); }`
pub open_window : ℕ → ℕ → ℕ → (ℕ → Bool) → ℕ → Bool
open_window zero id last ignore = ignore
open_window (suc fuel) id last ignore = elim (id == last) [
  | true ↦ ignore
  | false ↦ open_window fuel (wrapping_add id 1) last (update ignore id false)
]

-- At most 127 slots of the window are taken in a row, so this fuel is enough.
abbrev pub drain_fuel : ℕ
drain_fuel = 128

module _ {P : Type 0} where
  -- The loop `for id in 0..=u8::MAX` of the timeout branch, over the numbers below `n`.
  pub damaged_below : ℕ → State P → Bool
  damaged_below zero s = false
  damaged_below (suc id) s =
      damaged_below id s || (s.blocks_ignore id && not (is_empty (s.blocks_data id)))

  pub on_timeout : State P → State P × List (Action P)
  on_timeout s = (record s { reset = true }, if damaged_below 256 s then send error ∷ [] else [])

  -- The branch `if reset`, on the number of the first packet; 256 rounds are enough.
  unfoldable pub do_reset : ℕ → State P
  do_reset id = record {
    blocks_data = λ _. [];
    blocks_ignore = open_window 256 id (wrapping_add id window_width) (λ _. true);
    cur_id = id;
    reset = false;
  }

  -- The body of the last loop, up to its test of the opposite slot.
  unfoldable pub take_block : State P → State P
  take_block s = record s {
    blocks_data = update s.blocks_data s.cur_id [];
    blocks_ignore =
        update (update s.blocks_ignore s.cur_id true) (wrapping_add s.cur_id window_width) false;
  }

  abbrev pub current : State P → Action P
  current s = send (block s.cur_id (s.blocks_data s.cur_id))

  abbrev pub before :
      Action P → Option (State P × List (Action P)) → Option (State P × List (Action P))
  before a none = none
  before a (some (s, actions)) = some (s, a ∷ actions)

  -- `while blocks_data[cur_id].len() >= min_nb_packets`; `none` means that the fuel ran out.
  pub drain : ℕ → ℕ → State P → Option (State P × List (Action P))
  drain zero min_nb_packets s = none
  drain (suc fuel) min_nb_packets s = elim (leb min_nb_packets (length (s.blocks_data s.cur_id))) [
    | false ↦ some (s, [])
    | true ↦ elim (is_empty ((take_block s).blocks_data (wrapping_add s.cur_id window_width))) [
      | false ↦ some (record (take_block s) { reset = true }, current s ∷ send error ∷ [])
      | true ↦
          before (current s)
            (drain fuel min_nb_packets (record (take_block s) { cur_id = wrapping_add s.cur_id 1 }))
    ]
  ]

module _ (crate : Raptorq) where
  abbrev pub number : List ℕ → ℕ
  number datagram = crate.source_block_number (crate.deserialize datagram)

  unfoldable pub push : State crate.Packet → List ℕ → State crate.Packet
  push s datagram =
      let packet = crate.deserialize datagram in
      let id = crate.source_block_number packet in
      if s.blocks_ignore id
      then s
      else record s { blocks_data = update s.blocks_data id (s.blocks_data id ++ packet ∷ []) }

  unfoldable pub push_all : State crate.Packet → List (List ℕ) → State crate.Packet
  push_all s [] = s
  push_all s (datagram ∷ datagrams) = push_all (push s datagram) datagrams

  abbrev pub contents : Datagrams → List (List ℕ)
  contents (single datagram) = datagram ∷ []
  contents (multiple datagrams) = datagrams

  abbrev with_reset :
      State crate.Packet
      → List (List ℕ)
      → Outcome (Unit {0}) (State crate.Packet × List (Action crate.Packet))
  with_reset s [] = panic
  with_reset s (first ∷ _) = ok (do_reset (number first), set_dispatch (number first) ∷ [])

  abbrev finish :
      List (Action crate.Packet)
      → Option (State crate.Packet × List (Action crate.Packet))
      → Outcome (Unit {0}) (State crate.Packet × List (Action crate.Packet))
  finish actions none = panic
  finish actions (some (s, more)) = ok (s, actions ++ more)

  -- The rest of a round, once a message has come: the reset, the pushes and the last loop.
  unfoldable pub on_received :
      ℕ
      → State crate.Packet
      → List (List ℕ)
      → Outcome (Unit {0}) (State crate.Packet × List (Action crate.Packet))
  on_received min_nb_packets s datagrams = do
    (s', actions) ← if s.reset then with_reset s datagrams else ok (s, [])
    finish actions (drain drain_fuel min_nb_packets (push_all s' datagrams))

  -- One round of the loop; an error ends the worker.
  unfoldable pub step :
      ℕ
      → State crate.Packet
      → Event
      → Outcome (Unit {0}) (State crate.Packet × List (Action crate.Packet))
  unfolding on_received
  step min_nb_packets s timeout = ok (on_timeout s)
  step min_nb_packets s disconnected = err tt
  step min_nb_packets s (received datagrams) = on_received min_nb_packets s (contents datagrams)

  abbrev pub and_then :
      Outcome (Unit {0}) (State crate.Packet × List (Action crate.Packet))
      → (State crate.Packet → List (Action crate.Packet))
      → List (Action crate.Packet)
  and_then (ok (s, actions)) rest = actions ++ rest s
  and_then (err e) rest = []
  and_then panic rest = []

  -- The worker's loop over the events that come, until it ends: all that it does.
  pub run : ℕ → State crate.Packet → List Event → List (Action crate.Packet)
  run min_nb_packets s [] = []
  run min_nb_packets s (event ∷ events) =
      and_then (step min_nb_packets s event) (λ s'. run min_nb_packets s' events)
