-- ===== src/Tunnel/Sessions/Arrives.antt =====
-- What the clients of src/aux/udp/receive.rs send on, and what src/aux/udp/send.rs writes.
use lidi.Prelude.{
  ℕ, ◌^◌, ◌<◌, ◌≡◌, refl, ap, none, some, false, List, [], ◌∷◌, ◌++◌, map, All, String,
}
use lidi.Prelude.Outcome.{Outcome, ok, err}
use lidi.Stream.{IoError, failed, Turn, Reader, Writer}
use lidi.Stream.Laws.{Works}
use lidi.Diode.{DiodeSend, DiodeReceive}
use lidi.Tunnel.{SendTo, io}
use lidi.Tunnel.RoundTrip.{TakesAll, holding, framed, Fits, send-framed, receive_udp-framed}
use lidi.Tunnel.Sessions.{Config, send, Host, client_loop, and_served, receive}

-- A client: its datagrams, and how the reads of its stream are cut.
pub record Client (buffer_size : ℕ) : Type 0 where
  pub datagrams : List (List ℕ)
  pub schedule : List Turn
  pub fit : All (Fits buffer_size) datagrams
  pub works : All Works schedule

abbrev pub stream_of : {n : ℕ} → Client n → Reader
stream_of c = record { input = framed c.datagrams; schedule = c.schedule }

abbrev pub all_datagrams : {n : ℕ} → List (Client n) → List (List ℕ)
all_datagrams [] = []
all_datagrams (c ∷ clients) = c.datagrams ++ all_datagrams clients

-- Clients one after another: all their datagrams are sent on, and the loop waits for the next one.
client_loop-all :
    (send_to : SendTo) (n : ℕ) (clients : List (Client n))
    → n < 2 ^ 64
    → TakesAll send_to
    → client_loop n (ok send_to) (map (λ (c : Client n). ok (stream_of c)) clients)
      ≡ some (all_datagrams clients, none)
unfolding client_loop
client_loop-all send_to n [] hn takes = refl
client_loop-all send_to n (c ∷ clients) hn takes =
    rw (receive_udp-framed send_to n c.datagrams c.schedule hn c.fit c.works takes, client_loop)
      (ap (and_served c.datagrams) (client_loop-all send_to n clients hn takes))

-- These clients connect to the listener that is asked for, the Unix one before the TCP one.
pub data Serves {Addr : Type 0} (host : Host Addr) (at : DiodeReceive Addr)
    (connections : List (Outcome IoError Reader)) : Type 0 where
  by_unix :
      (path : String)
      → at.from_unix ≡ some path
      → host.exists path ≡ false
      → host.bind_unix path ≡ ok connections
      → Serves host at connections
  by_tcp :
      (address : Addr)
      → at.from_unix ≡ none
      → at.from_tcp ≡ some address
      → host.bind_tcp address ≡ ok connections
      → Serves host at connections

pub receive-all :
    {Addr : Type 0} (host : Host Addr) (config : Config (DiodeReceive Addr)) (to_bind to : Addr)
    (send_to : Addr → SendTo) (clients : List (Client config.buffer_size))
    → config.buffer_size < 2 ^ 64
    → host.bind_udp to_bind ≡ ok send_to
    → TakesAll (send_to to)
    → Serves host config.diode (map (λ (c : Client config.buffer_size). ok (stream_of c)) clients)
    → receive host config to_bind to ≡ some (all_datagrams clients, none)
unfolding receive
receive-all host config to_bind to send_to clients small bound takes
      (by_unix path e absent listening) =
    rw (
      e,
      absent,
      listening,
      bound,
      client_loop-all (send_to to) config.buffer_size clients small takes,
    )
receive-all host config to_bind to send_to clients small bound takes
      (by_tcp address e e' listening) =
    rw (e, e', listening, bound)
      (client_loop-all (send_to to) config.buffer_size clients small takes)

-- The stream of datagrams that come before the socket fails.
pub send-framing :
    {Addr : Type 0} (connect : DiodeSend Addr → Outcome IoError Writer)
    (bind : Addr → Outcome IoError (List (List ℕ))) (config : Config (DiodeSend Addr))
    (from_udp : Addr) (datagrams : List (List ℕ))
    → connect config.diode ≡ ok (holding [])
    → bind from_udp ≡ ok datagrams
    → All (Fits config.buffer_size) datagrams
    → send connect bind config from_udp ≡ (some (holding (framed datagrams)), err (io failed))
unfolding send
send-framing connect bind config from_udp datagrams connected bound fit =
    rw (connected, bound) (rw (send-framed config.buffer_size datagrams [] fit))
