-- ===== src/Tunnel/RoundTrip.antt =====
-- The stream of src/aux/udp/send.rs, read by src/aux/udp/receive.rs.
use lidi.Prelude.{
  ℕ, zero, suc, ◌^◌, ◌≤◌, ◌<◌, ◌≡◌, refl, ap, sym, ◌∙◌, some, List, [], ◌∷◌, ◌++◌, length, All,
  arith, append_assoc, append-nil, length-append, take_all, le→leb,
}
use lidi.Prelude.Bytes.{to_le_bytes, length-to_le_bytes, from_le_bytes-to_le_bytes}
use lidi.Prelude.Outcome.{ok, err}
use lidi.Stream.{unexpected_eof, failed, Turn, Reader, Writer, write_all}
use lidi.Stream.Laws.{Works, read_exact-Filled, read_exact-eof}
use lidi.Tunnel.{
  SendTo, Error, io, diode, serialize_to, deserialize_from, send_udp_aux, receive_one, receive_loop,
  receive_udp,
}

abbrev pub holding : List ℕ → Writer
holding bytes = record { written = bytes; faults = [] }

-- The stream of a list of datagrams.
abbrev pub framed : List (List ℕ) → List ℕ
framed [] = []
framed (datagram ∷ datagrams) = (to_le_bytes 8 (length datagram) ++ datagram) ++ framed datagrams

abbrev pub Fits : ℕ → List ℕ → Type 0
Fits buffer_size datagram = length datagram ≤ buffer_size

pub send-framed :
    (buffer_size : ℕ) (datagrams : List (List ℕ)) (before : List ℕ)
    → All (Fits buffer_size) datagrams
    → send_udp_aux buffer_size datagrams (holding before)
      ≡ (holding (before ++ framed datagrams), err (io failed))
unfolding send_udp_aux serialize_to write_all
send-framed buffer_size [] before h =
    ap (λ l. (holding l, err (io failed))) (sym (append-nil before))
send-framed buffer_size (datagram ∷ datagrams) before h =
    ap
      (λ (d : List ℕ).
        send_udp_aux buffer_size datagrams (holding ((before ++ to_le_bytes 8 (length d)) ++ d)))
      (take_all buffer_size datagram h.0)
    ∙ send-framed buffer_size datagrams ((before ++ to_le_bytes 8 (length datagram)) ++ datagram)
        h.1
    ∙ ap (λ l. (holding l, err (io failed)))
        (ap (λ l. l ++ framed datagrams)
            (append_assoc before (to_le_bytes 8 (length datagram)) datagram)
          ∙ append_assoc before (to_le_bytes 8 (length datagram) ++ datagram) (framed datagrams))

receive_one-framed :
    (buffer_size : ℕ) (datagram rest : List ℕ) (schedule : List Turn)
    → buffer_size < 256 ^ 8
    → Fits buffer_size datagram
    → All Works schedule
    → (after : List Turn) × (receive_one buffer_size (record {
      input = to_le_bytes 8 (length datagram) ++ (datagram ++ rest);
      schedule = schedule;
    })
        ≡ ok (datagram, record { input = rest; schedule = after }))
      × All Works after
unfolding receive_one deserialize_from
receive_one-framed buffer_size datagram rest schedule hb h w =
    let f1 =
      read_exact-Filled (to_le_bytes 8 (length datagram)) (datagram ++ rest) schedule 8
        (length-to_le_bytes 8 (length datagram)) w in
    let f2 = read_exact-Filled datagram rest f1.after (length datagram) refl f1.works in
    (
      f2.after,
      rw (f1.done) (
          rw (from_le_bytes-to_le_bytes 8 (length datagram) (omega (arith, h)))
            (rw (le→leb (length datagram) buffer_size h) (rw (f2.done)))),
      f2.works,
    )

receive_one-eof :
    (buffer_size : ℕ) (schedule : List Turn)
    → All Works schedule
    → receive_one buffer_size (record { input = []; schedule = schedule })
      ≡ err (diode unexpected_eof)
unfolding receive_one deserialize_from
receive_one-eof buffer_size schedule w = rw (read_exact-eof 7 schedule w)

-- Every `send_to` succeeds.
abbrev pub TakesAll : SendTo → Type 0
TakesAll send_to = (sent : List (List ℕ)) (datagram : List ℕ) → send_to sent datagram ≡ ok tt

loop-more :
    (send_to : SendTo) (fuel buffer_size : ℕ) (r r' : Reader) (datagram : List ℕ)
    (sent : List (List ℕ))
    → TakesAll send_to
    → receive_one buffer_size r ≡ ok (datagram, r')
    → receive_loop send_to (suc fuel) buffer_size r sent
      ≡ receive_loop send_to fuel buffer_size r' (sent ++ datagram ∷ [])
unfolding receive_loop
loop-more send_to fuel buffer_size r r' datagram sent takes e =
    rw (e, receive_loop, takes sent datagram)

loop-ended :
    (send_to : SendTo) (fuel buffer_size : ℕ) (r : Reader) (sent : List (List ℕ)) {e : Error}
    → receive_one buffer_size r ≡ err e
    → receive_loop send_to (suc fuel) buffer_size r sent ≡ some (sent, err e)
unfolding receive_loop
loop-ended send_to fuel buffer_size r sent e = rw (e, receive_loop)

receive-framed :
    (send_to : SendTo) (fuel buffer_size : ℕ) (datagrams sent : List (List ℕ))
    (schedule : List Turn)
    → buffer_size < 256 ^ 8
    → All (Fits buffer_size) datagrams
    → length datagrams < fuel
    → All Works schedule
    → TakesAll send_to
    → receive_loop send_to fuel buffer_size
        (record { input = framed datagrams; schedule = schedule })
        sent
      ≡ some (sent ++ datagrams, err (diode unexpected_eof))
receive-framed send_to zero buffer_size datagrams sent schedule hb h hf w takes =
    absurd (omega arith)
receive-framed send_to (suc fuel) buffer_size [] sent schedule hb h hf w takes =
    loop-ended send_to fuel buffer_size _ sent (receive_one-eof buffer_size schedule w)
    ∙ ap (λ l. some (l, err (diode unexpected_eof))) (sym (append-nil sent))
receive-framed send_to (suc fuel) buffer_size (datagram ∷ datagrams) sent schedule hb h hf w takes =
    let size = to_le_bytes 8 (length datagram) in
    let (after, e, w') =
      receive_one-framed buffer_size datagram (framed datagrams) schedule hb h.0 w in
    ap
      (λ l.
        receive_loop send_to (suc fuel) buffer_size (record { input = l; schedule = schedule })
          sent)
      (append_assoc size datagram (framed datagrams))
    ∙ loop-more send_to fuel buffer_size _ _ datagram sent takes e
    ∙ receive-framed send_to fuel buffer_size datagrams (sent ++ datagram ∷ []) after hb h.1
        (omega arith) w' takes
    ∙ ap (λ l. some (l, err (diode unexpected_eof))) (append_assoc sent (datagram ∷ []) datagrams)

enough : (datagrams : List (List ℕ)) → length datagrams ≤ length (framed datagrams)
enough [] = omega arith
enough (datagram ∷ datagrams) = omega (
  arith,
  length-append (to_le_bytes 8 (length datagram) ++ datagram) (framed datagrams),
  enough datagrams,
)

-- `receive_udp` on the stream of a list of datagrams.
pub receive_udp-framed :
    (send_to : SendTo) (buffer_size : ℕ) (datagrams : List (List ℕ)) (schedule : List Turn)
    → buffer_size < 2 ^ 64
    → All (Fits buffer_size) datagrams
    → All Works schedule
    → TakesAll send_to
    → receive_udp send_to buffer_size (record { input = framed datagrams; schedule = schedule })
      ≡ some (datagrams, err (diode unexpected_eof))
unfolding receive_udp
receive_udp-framed send_to buffer_size datagrams schedule hb h w takes =
    receive-framed send_to (suc (length (framed datagrams))) buffer_size datagrams [] schedule
      (omega (arith, hb)) h (omega (arith, enough datagrams)) w takes

-- With buffers of the same size, smaller than 2^64, at both ends, datagrams that fit them, and a socket
-- on which every `send_to` succeeds: the stream that `send_udp_aux` has written when its socket fails
-- makes `receive_udp` send exactly these datagrams, in order and with their bounds, whatever the
-- sizes of the reads; at the end of the stream it returns an error.
pub receive_udp-send_udp_aux :
    (send_to : SendTo) (buffer_size : ℕ) (datagrams : List (List ℕ)) (schedule : List Turn)
    → buffer_size < 2 ^ 64
    → All (Fits buffer_size) datagrams
    → All Works schedule
    → TakesAll send_to
    → (w : Writer) × (send_udp_aux buffer_size datagrams (holding []) ≡ (w, err (io failed)))
      × (receive_udp send_to buffer_size (record { input = w.written; schedule = schedule })
          ≡ some (datagrams, err (diode unexpected_eof)))
receive_udp-send_udp_aux send_to buffer_size datagrams schedule hb h w takes = (
  holding (framed datagrams),
  send-framed buffer_size datagrams [] h,
  receive_udp-framed send_to buffer_size datagrams schedule hb h w takes,
)
