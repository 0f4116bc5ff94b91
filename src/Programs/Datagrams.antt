-- ===== src/Programs/Datagrams.antt =====
-- Datagrams from src/bin/diode-send-udp.rs to src/bin/diode-receive-udp.rs: what the connection of a
-- client holds is what the server reads.
use lidi.Prelude.{◌≡◌, refl, ap, none, some, true, List, [], ◌∷◌, map, All, arith, String}
use lidi.Prelude.Outcome.{Outcome, ok}
use lidi.Stream.{IoError, Writer}
use lidi.Diode.{DiodeSend}
use lidi.Tunnel.{SendTo}
use lidi.Tunnel.RoundTrip.{TakesAll, holding, framed}
use lidi.Tunnel.Sessions.{Host}
use lidi.Tunnel.Sessions.Arrives.{
  Client, stream_of, all_datagrams, Serves, receive-all, send-framing,
}
use lidi.Programs.{World, endpoint, returned}
use lidi.Programs.DiodeSendUdp
use lidi.Programs.DiodeSendUdp.{u16_max}
use lidi.Programs.DiodeReceiveUdp

-- diode-send-udp on the datagrams of a client has written its stream when the socket fails.
abbrev pub Sends :
    World
    → (DiodeSend String → Outcome IoError Writer)
    → DiodeSendUdp.Args
    → Client u16_max
    → Type 0
Sends world connect args c =
    DiodeSendUdp.main world connect (λ _. ok c.datagrams) args
    ≡ (some (holding (framed c.datagrams)), returned)

each-Sends :
    (world : World) (connect : DiodeSend String → Outcome IoError Writer) (send : DiodeSendUdp.Args)
    (to : DiodeSend String) (clients : List (Client u16_max))
    → world.has_logger ≡ true
    → endpoint send.to_tcp send.to_unix ≡ some to
    → connect to ≡ ok (holding [])
    → All (Sends world connect send) clients
unfolding DiodeSendUdp.main
each-Sends world connect send to [] logged at connected = tt
each-Sends world connect send to (c ∷ clients) logged at connected = (
  rw (logged, at)
      (ap DiodeSendUdp.ended (
        send-framing connect (λ _. ok c.datagrams) (DiodeSendUdp.config to) send.from c.datagrams
          connected refl c.fit)),
  each-Sends world connect send to clients logged at connected,
)

-- From end to end: with loggers, a diode that takes all, a UDP socket on which every `send_to` the
-- given address succeeds, and clients that connect to the listener that is asked for, one after
-- another: diode-send-udp, for each of them, has written the stream of its
-- datagrams, of 65535 bytes at most, when its socket fails; and diode-receive-udp, on these
-- streams, however the reads are cut, sends exactly all datagrams of all clients, in order and with
-- their bounds, and waits for the next client.
pub datagrams_arrive :
    (world : World) (connect : DiodeSend String → Outcome IoError Writer) (host : Host String)
    (send : DiodeSendUdp.Args) (receive : DiodeReceiveUdp.Args) (to : DiodeSend String)
    (clients : List (Client u16_max)) (send_to : String → SendTo)
    → world.has_logger ≡ true
    → endpoint send.to_tcp send.to_unix ≡ some to
    → connect to ≡ ok (holding [])
    → host.bind_udp receive.to_bind ≡ ok send_to
    → TakesAll (send_to receive.to)
    → Serves host
        (DiodeReceiveUdp.config receive).diode
        (map (λ (c : Client u16_max). ok (stream_of c)) clients)
    → All (Sends world connect send) clients
      × (DiodeReceiveUdp.main world host receive ≡ some (all_datagrams clients, none))
unfolding DiodeReceiveUdp.main
datagrams_arrive world connect host send receive to clients send_to logged at connected bound takes
      serves =
    (
      each-Sends world connect send to clients logged at connected,
      rw logged (
          ap DiodeReceiveUdp.ended (
            receive-all host (DiodeReceiveUdp.config receive) receive.to_bind receive.to send_to
              clients (omega arith) bound takes serves)),
    )
