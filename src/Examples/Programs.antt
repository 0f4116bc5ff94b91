-- ===== src/Examples/Programs.antt =====
-- The theorems about the programs at concrete inputs.
use mathlib.Core.Option
use mathlib.Core.List.{reverse}
use lidi.Prelude.{
  ℕ, ◌+◌, ◌*◌, ◌/◌, ◌-◌, ◌≡◌, refl, some, none, true, false, List, [], ◌∷◌, ◌++◌, map, arith, take,
  drop, length,
}
use lidi.Prelude.Outcome.{ok, err}
use lidi.Stream.{Reader, some_bytes, failed}
use lidi.Protocol.RaptorQ.{nb_packets, encode, decode}
use lidi.Protocol.Block.{start, end, Block}
use lidi.Protocol.Block.Layout.{layout}
use lidi.Protocol.Block.RoundTrip.{layout-Reads}
use lidi.Send.Client.Carries.{last, Transfer, begin}
use lidi.Send.Server
use lidi.Send.Server.{to_ordering}
use lidi.Send.Server.Transfers.{Transfers}
use lidi.Send.Sender
use lidi.Send.Sender.{Sender, cpu_ids}
use lidi.Receive.Client
use lidi.Receive.Client.{timeout}
use lidi.Receive.Clients
use lidi.Receive.Clients.{disconnected}
use lidi.Receive.Clients.Serves.{Whole, expected}
use lidi.Receive.Receiver.Starts.{receiver_plan}
use lidi.File.Framing.RoundTrip.{holding}
use lidi.Programs.{exit}
use lidi.Programs.OneshotSend
use lidi.Programs.OneshotReceive
use lidi.Programs.OneshotReceive.Delivers.{main-delivers}
use lidi.Programs.DiodeSend
use lidi.Programs.DiodeSend.Accepts.{
  with_clients, listener_loop-accepted, asked, listens, main-listens,
}
use lidi.Programs.DiodeReceive
use lidi.Programs.DiodeReceive.Serves.{by_unix, to_server, main-serves}
use lidi.Programs.DiodeConfig
use lidi.Programs.DiodeConfig.Tries.{Shuffled, main-tries}
use lidi.Examples.Crate.{crate, laws}
use lidi.Examples.World.{plain, new-plain, plain-IsCodable, world}

abbrev stdin : Reader
stdin = record { input = 7 ∷ 8 ∷ 9 ∷ []; schedule = some_bytes 2 ∷ [] }

abbrev oneshot_send : OneshotSend.Args
oneshot_send = record {
  encode_threads = 2;
  flush = true;
  to_mtu = 40;
  batch = none;
  block = 20;
  repair = 2;
  cpu_affinity = true;
  hash = false;
}

-- The blocks of a transfer of client 1 with the bytes 7, 8 and 9.
abbrev opening : Block
opening = layout start 1 0 (0 ∷ 0 ∷ 0 ∷ 0 ∷ 0 ∷ 0 ∷ 0 ∷ [])

abbrev closing : Block
closing = layout end 1 3 (7 ∷ 8 ∷ 9 ∷ 0 ∷ 0 ∷ 0 ∷ 0 ∷ [])

transfer : Transfer plain 1 (7 ∷ 8 ∷ 9 ∷ []) (opening ∷ closing ∷ [])
transfer =
    begin opening _
      (layout-Reads start 1 [] (0 ∷ 0 ∷ 0 ∷ 0 ∷ 0 ∷ 0 ∷ 0 ∷ []) (omega arith) (omega arith)) refl
      (last closing
        (layout-Reads end 1 (7 ∷ 8 ∷ 9 ∷ []) (0 ∷ 0 ∷ 0 ∷ 0 ∷ []) (omega arith) (omega arith)) refl)

abbrev oneshot_receive : OneshotReceive.Args
oneshot_receive = record {
  from_mtu = 40;
  batch = some 3;
  reset_timeout = 2;
  decode_threads = 3;
  flush = false;
  abort_timeout = none;
  block = 20;
  repair = 2;
  min_repair = 0;
  cpu_affinity = true;
  hash = false;
}

main-delivers_example :
    ((OneshotReceive.main crate oneshot_receive world).threads
      ≡ take 5 (
          receiver_plan
            (OneshotReceive.config oneshot_receive)
            (cpu_ids true (Option.map reverse (some (0 ∷ 1 ∷ []))))))
    × (OneshotReceive.delivered crate oneshot_receive world
          (holding [])
          (map Client.block (opening ∷ closing ∷ []) ++ timeout ∷ [])
        ≡ (holding (7 ∷ 8 ∷ 9 ∷ []), some (exit 0)))
main-delivers_example =
    main-delivers crate oneshot_receive world plain 1 (timeout ∷ []) refl new-plain refl
      (omega arith) transfer

abbrev sender : Sender DiodeSend.Client
sender = record {
  config = OneshotSend.config oneshot_send;
  raptorq = plain;
  multiplex_control = 1;
  block_to_send = 0;
  to_server = Sender.bounded 1;
  to_ordering = 2;
  to_encoding = 2;
  to_send = 2;
}

listener_loop-accepted_example :
    DiodeSend.listener_loop DiodeSend.tcp (some 4 ∷ some 5 ∷ none ∷ some 6 ∷ []) sender
    ≡ ok (with_clients sender (some (DiodeSend.tcp 4) ∷ some (DiodeSend.tcp 5) ∷ []))
listener_loop-accepted_example =
    listener_loop-accepted DiodeSend.tcp (some 4 ∷ some 5 ∷ none ∷ some 6 ∷ []) sender refl

abbrev diode_send : DiodeSend.Args
diode_send = record {
  from_tcp = some "127.0.0.1:5001";
  from_unix = some "/run/lidi";
  max_clients = 2;
  encode_threads = 2;
  heartbeat = some 5;
  flush = false;
  to_mtu = 40;
  batch = none;
  block = 20;
  repair = 2;
  cpu_affinity = false;
  hash = false;
}

abbrev sockets : DiodeSend.Sockets
sockets = record {
  tcp_binds = λ address. true;
  unix_exists = λ path. false;
  unix_binds = λ path. true;
}

main-listens_example :
    DiodeSend.main world sockets diode_send
    ≡ listens diode_send world (asked diode_send.from_tcp diode_send.from_unix)
main-listens_example =
    main-listens diode_send world sockets plain 2 refl new-plain refl
      (record { tcp = λ address. refl; absent = λ path. refl; unix = λ path. refl }) (omega arith)

abbrev diode_receive : DiodeReceive.Args
diode_receive = record {
  from_mtu = 40;
  batch = none;
  reset_timeout = 2;
  decode_threads = 1;
  max_clients = 2;
  flush = true;
  abort_timeout = some 3;
  to = record { to_tcp = none; to_unix = some "/run/server" };
  block = 20;
  repair = 2;
  min_repair = 0;
  heartbeat = some 10;
  cpu_affinity = true;
  hash = false;
}

abbrev network : DiodeReceive.Network
network = record { to_tcp = λ address. err failed; to_unix = λ path. ok (holding []) }

abbrev whole : Whole plain
whole = record {
  id = 1;
  bytes = 7 ∷ 8 ∷ 9 ∷ [];
  blocks = opening ∷ closing ∷ [];
  rest = [];
  transfer = transfer;
}

main-serves_example :
    ((DiodeReceive.main crate world diode_receive).workers
      ≡ take 5 (
          receiver_plan
            (DiodeReceive.config diode_receive)
            (cpu_ids true (Option.map reverse (some (0 ∷ 1 ∷ []))))))
    × (Clients.start true (map (to_server network diode_receive.to plain true) (whole ∷ whole ∷ []))
        ≡ (expected true plain (whole ∷ whole ∷ []), disconnected))
main-serves_example =
    main-serves crate diode_receive world network plain 2 (whole ∷ whole ∷ []) refl new-plain refl
      (by_unix "/run/server" refl refl refl)

-- Half of the packets are removed.
abbrev diode_config : DiodeConfig.Args
diode_config = record {
  debug = true;
  mtu = 40;
  block = 20;
  repair = 2;
  min_repair = 0;
  remove = 50;
}

abbrev sixteen : List ℕ
sixteen = 1 ∷ 2 ∷ 3 ∷ 4 ∷ 5 ∷ 6 ∷ 7 ∷ 8 ∷ 9 ∷ 10 ∷ 11 ∷ 12 ∷ 13 ∷ 14 ∷ 15 ∷ 16 ∷ []

main-tries_example :
    (shuffled : List crate.Packet) × Shuffled (encode crate plain 0 sixteen) shuffled
    × (DiodeConfig.main crate world diode_config (λ i. i + 7) sixteen
        ≡ DiodeConfig.verdict sixteen
            (decode crate plain 0 (drop (nb_packets plain * 50 / 100) shuffled)))
    × (length (drop (nb_packets plain * 50 / 100) shuffled)
        ≡ nb_packets plain - nb_packets plain * 50 / 100)
main-tries_example =
    main-tries crate laws world diode_config (λ i. i + 7) sixteen plain refl new-plain
      plain-IsCodable (omega arith) refl (omega arith)
