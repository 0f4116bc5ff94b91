-- ===== src/Pipeline.antt =====
-- The workers of src/send/mod.rs and src/receive/mod.rs joined by their channels and by a link that
-- loses nothing: what one worker sends is what the next one receives.
pub mod Wire
pub mod Arrives
pub mod Among
pub mod Owned
mod Tracks
mod Room
mod Moves
mod Steps
mod Sizes
pub mod Servers
pub mod Streams
pub mod Serves
pub mod Breaks
pub mod Losses
use lidi.Prelude.{ℕ, ◌+◌, ◌^◌, ◌≤◌, ◌<◌, ◌≢◌, Option, none, some, List, [], ◌∷◌, map, length, All}
use lidi.Protocol.Block.{Block}
use lidi.Protocol.Crate.{Raptorq}
use lidi.Protocol.RaptorQ.{RaptorQ, min_nb_packets}
use lidi.Protocol.RaptorQ.Coding.{IsCodable}
use lidi.Udp.{came}
use lidi.Udp.Batches.{sent}
use lidi.Send
use lidi.Receive.{Reassembled}
use lidi.Receive.Clients.{receive_loop}
use lidi.Receive.Decode
use lidi.Receive.Decode.InOrder.{fresh}
use lidi.Receive.Reblock
use lidi.Receive.Reblock.{Action, send, set_dispatch, received, init}

-- What the UDP worker of the sender has put on the wire, on a socket whose calls succeed.
unfoldable pub wire :
    (crate : Raptorq) (batch_send : Option ℕ)
    → ℕ
    → List (Option (List crate.Packet))
    → List (List ℕ)
wire crate batch_send nb_encode_threads messages =
    let ended = Send.Udp.loop crate batch_send nb_encode_threads messages (sent []) in ended.0.wire

-- What the UDP worker of the receiver hands to the reblock worker, one datagram for each call.
unfoldable pub events : ℕ → List (List ℕ) → List Reblock.Event
events mtu datagrams =
    map received (receive_loop mtu none (map (λ datagram. came datagram []) datagrams)).0

-- The messages from the reblock worker to the decoders.
abbrev pub to_decode : {P : Type 0} → List (Action P) → List (Reassembled P)
to_decode [] = []
to_decode (send message ∷ actions) = message ∷ to_decode actions
to_decode (set_dispatch id ∷ actions) = to_decode actions

-- Where the reblock worker first puts the counter of the decoders, which is 0 before.
abbrev pub first_dispatch : {P : Type 0} → List (Action P) → ℕ
first_dispatch [] = 0
first_dispatch (send message ∷ actions) = first_dispatch actions
first_dispatch (set_dispatch id ∷ actions) = id

-- All that the reblock worker does with what is on the wire.
unfoldable pub reblocked :
    (crate : Raptorq) → RaptorQ → ℕ → List (List ℕ) → List (Action crate.Packet)
unfolding events
reblocked crate q mtu datagrams =
    Reblock.run crate (min_nb_packets q) (init crate.Packet) (events mtu datagrams)

-- The decoders of the receiver on what the sender has put on the wire.
abbrev pub decoding :
    (crate : Raptorq)
    → RaptorQ
    → ℕ
    → Option ℕ
    → ℕ
    → ℕ
    → List (Option (List crate.Packet))
    → Decode.State crate.Packet
decoding crate q mtu batch_send encoders decoders messages =
    let actions = reblocked crate q mtu (wire crate batch_send encoders messages) in
    fresh crate q decoders (first_dispatch actions) (to_decode actions)

-- A configuration of both ends: packets that fit the MTU, and enough repair packets.
pub record Usable (q : RaptorQ) (mtu : ℕ) : Type 0 where
  pub codable : IsCodable q
  pub some_symbol : 0 < q.symbol_count
  pub enough : q.min_nb_repair_packets ≤ q.nb_repair_packets
  pub small : q.symbol_count + q.min_nb_repair_packets < 2 ^ 16
  pub fits : q.max_packet_size + 4 ≤ mtu
  pub datagram : mtu < 2 ^ 16
