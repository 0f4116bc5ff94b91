-- ===== src/Udp/Batches.antt =====
-- The wire after batches and after single calls of src/udp.rs.
use lidi.Prelude.{
  ℕ, zero, suc, ◌^◌, ◌≤◌, ◌<◌, ◌≡◌, ◌≢◌, refl, ap, sym, ◌∙◌, Option, none, some, List, [], ◌∷◌,
  ◌++◌, map, length, take, drop, All, arith, lt→ltb, eq→==, ne→==, take_all, append_assoc,
  append-nil, take-append-drop, length-drop, All-take, All-drop,
}
use lidi.Prelude.Outcome.{ok}
use lidi.Protocol.Crate.{Raptorq}
use lidi.Udp.{Socket, submit, send_each, send_chunks, fits, send}

-- A socket whose calls succeed, after these datagrams.
abbrev pub sent : List (List ℕ) → Socket
sent wire = record { wire = wire; faults = [] }

abbrev Short : List ℕ → Type 0
Short datagram = length datagram < 2 ^ 32

fits-ok : (datagrams : List (List ℕ)) → All Short datagrams → fits datagrams ≡ ok tt
fits-ok [] h = refl
fits-ok (datagram ∷ datagrams) h =
    rw (lt→ltb (length datagram) (2 ^ 32) h.0) (fits-ok datagrams h.1)

submit-ok :
    (label : _) (datagrams wire : List (List ℕ))
    → submit label datagrams (sent wire) ≡ ok (sent (wire ++ datagrams))
submit-ok label datagrams wire =
    rw (eq→== (length datagrams) (length datagrams) refl)
      (ap (λ l. ok (sent (wire ++ l))) (take_all (length datagrams) datagrams (omega arith)))

send_each-ok :
    (datagrams wire : List (List ℕ))
    → send_each datagrams (sent wire) ≡ ok (sent (wire ++ datagrams))
unfolding send_each
send_each-ok [] wire = ap (λ l. ok (sent l)) (sym (append-nil wire))
send_each-ok (datagram ∷ datagrams) wire =
    send_each-ok datagrams (wire ++ datagram ∷ [])
    ∙ ap (λ l. ok (sent l)) (append_assoc wire (datagram ∷ []) datagrams)

send_chunks-ok :
    (fuel n : ℕ) (datagrams wire : List (List ℕ))
    → length datagrams ≤ fuel
    → All Short datagrams
    → send_chunks fuel (suc n) datagrams (sent wire) ≡ ok (sent (wire ++ datagrams))
unfolding send_chunks
send_chunks-ok fuel n [] wire h short = ap (λ l. ok (sent l)) (sym (append-nil wire))
send_chunks-ok zero n (datagram ∷ datagrams) wire h short = absurd (omega arith)
send_chunks-ok (suc fuel) n (datagram ∷ datagrams) wire h short =
    let batch = datagram ∷ take n datagrams in
    let left = drop n datagrams in
    rw (fits-ok batch (short.0, All-take Short n datagrams short.1)) (
      rw (submit-ok "libc::sendmmsg" batch wire) (
        send_chunks-ok fuel n left (wire ++ batch) (omega (arith, length-drop n datagrams))
          (All-drop Short n datagrams short.1)
        ∙ ap (λ l. ok (sent l))
            (append_assoc wire batch left
              ∙ ap (λ l. wire ++ datagram ∷ l) (take-append-drop n datagrams))))

-- In every mode but a batch size of 0, a socket whose calls succeed is given the serialised packets,
-- all of them and in order, if each of them is shorter than 2^32 bytes.
pub send-wire :
    (crate : Raptorq) (batch_send : Option ℕ) (packets : List crate.Packet) (wire : List (List ℕ))
    → batch_send ≢ some 0
    → All (λ datagram. length datagram < 2 ^ 32) (map crate.serialize packets)
    → send crate batch_send packets (sent wire) ≡ ok (sent (wire ++ map crate.serialize packets))
unfolding send
send-wire crate none packets wire h short = send_each-ok (map crate.serialize packets) wire
send-wire crate (some zero) packets wire h short = absurd (h refl)
send-wire crate (some (suc zero)) packets wire h short =
    send_each-ok (map crate.serialize packets) wire
send-wire crate (some (suc (suc n))) packets wire h short =
    rw (ne→== (suc (suc n)) 1 (omega arith)) (
      send_chunks-ok (length (map crate.serialize packets)) (suc n) (map crate.serialize packets)
        wire (omega arith) short)
