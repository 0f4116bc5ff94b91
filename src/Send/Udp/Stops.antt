-- ===== src/Send/Udp/Stops.antt =====
-- What src/send/udp.rs has sent when it stops.
use lidi.Prelude.{
  ℕ, zero, suc, ◌+◌, ◌-◌, ◌%◌, ◌^◌, ◌<◌, ◌≡◌, ◌≢◌, refl, ap, sym, ◌∙◌, Option, none, some, List, [],
  ◌≤◌, ◌∷◌, ◌++◌, map, All, length, arith, append_assoc, append-nil,
}
use lidi.Prelude.Outcome.{ok, err}
use lidi.Protocol.Crate.{Raptorq}
use lidi.Udp.Batches.{sent, send-wire}
use lidi.Send.Encoding.InOrder.{somes}
use lidi.Send.Udp.{Packets, receive, wait_others, loop}

module _ (crate : Raptorq) (batch_send : Option ℕ) where
  -- The datagrams of a list of coded blocks.
  abbrev pub datagrams : List (Packets crate batch_send) → List (List ℕ)
  datagrams [] = []
  datagrams (packets ∷ blocks) = map crate.serialize packets ++ datagrams blocks

  abbrev pub Short : Packets crate batch_send → Type 0
  Short packets = All (λ datagram. length datagram < 2 ^ 32) (map crate.serialize packets)

  -- End marks among the messages.
  abbrev pub marks : List (Option (Packets crate batch_send)) → ℕ
  marks [] = 0
  marks (none ∷ messages) = suc (marks messages)
  marks (some packets ∷ messages) = marks messages

  extend :
      (wire : List (List ℕ)) (packets : Packets crate batch_send)
      (blocks : List (Packets crate batch_send))
      → (wire ++ map crate.serialize packets) ++ datagrams blocks
        ≡ wire ++ datagrams (packets ∷ blocks)
  extend wire packets blocks = append_assoc wire (map crate.serialize packets) (datagrams blocks)

  wait_others-sent :
      (count : ℕ) (messages rest : List (Option (Packets crate batch_send))) (wire : List (List ℕ))
      → batch_send ≢ some 0
      → All Short (somes messages)
      → marks messages ≡ count
      → wait_others crate batch_send (suc count) (messages ++ none ∷ rest) (sent wire)
        ≡ (sent (wire ++ datagrams (somes messages)), ok tt)
  unfolding wait_others
  wait_others-sent count [] rest wire h short e =
      ap (λ n. wait_others crate batch_send n rest (sent wire)) (sym e)
      ∙ ap (λ l. (sent l, ok tt)) (sym (append-nil wire))
  wait_others-sent zero (none ∷ messages) rest wire h short e = absurd (omega arith)
  wait_others-sent (suc count) (none ∷ messages) rest wire h short e =
      wait_others-sent count messages rest wire h short (omega arith)
  wait_others-sent count (some packets ∷ messages) rest wire h short e =
      rw (send-wire crate batch_send packets wire h short.0, wait_others)
        (wait_others-sent count messages rest (wire ++ map crate.serialize packets) h short.1 e
          ∙ ap (λ l. (sent l, ok tt)) (extend wire packets (somes messages)))

  -- The worker stops at the end mark that brings their number to `nb_encode_threads`, and by then it
  -- has sent every packet that came before it, in order; what comes behind it is not sent. The
  -- calls succeed, the batch size is not 0, and every datagram is shorter than 2^32 bytes.
  pub loop-sent :
      (nb_encode_threads : ℕ) (messages rest : List (Option (Packets crate batch_send)))
      (wire : List (List ℕ))
      → batch_send ≢ some 0
      → nb_encode_threads < 2 ^ 8
      → All Short (somes messages)
      → marks messages + 1 ≡ nb_encode_threads
      → loop crate batch_send nb_encode_threads (messages ++ none ∷ rest) (sent wire)
        ≡ (sent (wire ++ datagrams (somes messages)), ok tt)
  unfolding loop wait_others
  loop-sent n [] rest wire h few short e =
      let none_left : (n + 2 ^ 8 - 1) % 2 ^ 8 ≡ 0 = omega arith in
      ap (λ k. wait_others crate batch_send k rest (sent wire)) none_left
      ∙ ap (λ l. (sent l, ok tt)) (sym (append-nil wire))
  loop-sent n (none ∷ messages) rest wire h few short e =
      let others : (n + 2 ^ 8 - 1) % 2 ^ 8 ≡ suc (marks messages) = omega arith in
      ap (λ k. wait_others crate batch_send k (messages ++ none ∷ rest) (sent wire)) others
      ∙ wait_others-sent (marks messages) messages rest wire h short refl
  loop-sent n (some packets ∷ messages) rest wire h few short e =
      rw (send-wire crate batch_send packets wire h short.0, loop)
        (loop-sent n messages rest (wire ++ map crate.serialize packets) h few short.1 e
          ∙ ap (λ l. (sent l, ok tt)) (extend wire packets (somes messages)))

  wait_others-running :
      (count : ℕ) (messages : List (Option (Packets crate batch_send))) (wire : List (List ℕ))
      → batch_send ≢ some 0
      → All Short (somes messages)
      → marks messages ≤ count
      → wait_others crate batch_send (suc count) messages (sent wire)
        ≡ (sent (wire ++ datagrams (somes messages)), err receive)
  unfolding wait_others
  wait_others-running count [] wire h short e =
      ap (λ l. (sent l, err receive)) (sym (append-nil wire))
  wait_others-running zero (none ∷ messages) wire h short e = absurd (omega arith)
  wait_others-running (suc count) (none ∷ messages) wire h short e =
      wait_others-running count messages wire h short (omega arith)
  wait_others-running count (some packets ∷ messages) wire h short e =
      rw (send-wire crate batch_send packets wire h short.0, wait_others)
        (wait_others-running count messages (wire ++ map crate.serialize packets) h short.1 e
          ∙ ap (λ l. (sent l, err receive)) (extend wire packets (somes messages)))

  -- While end marks are missing, the worker has sent every packet that came, and waits for more.
  pub loop-running :
      (nb_encode_threads : ℕ) (messages : List (Option (Packets crate batch_send)))
      (wire : List (List ℕ))
      → batch_send ≢ some 0
      → nb_encode_threads < 2 ^ 8
      → All Short (somes messages)
      → marks messages < nb_encode_threads
      → loop crate batch_send nb_encode_threads messages (sent wire)
        ≡ (sent (wire ++ datagrams (somes messages)), err receive)
  unfolding loop
  loop-running n [] wire h few short e = ap (λ l. (sent l, err receive)) (sym (append-nil wire))
  loop-running n (none ∷ messages) wire h few short e =
      let others : (n + 2 ^ 8 - 1) % 2 ^ 8 ≡ suc (n - 2) = omega arith in
      ap (λ k. wait_others crate batch_send k messages (sent wire)) others
      ∙ wait_others-running (n - 2) messages wire h short (omega arith)
  loop-running n (some packets ∷ messages) wire h few short e =
      rw (send-wire crate batch_send packets wire h short.0, loop)
        (loop-running n messages (wire ++ map crate.serialize packets) h few short.1 e
          ∙ ap (λ l. (sent l, err receive)) (extend wire packets (somes messages)))
