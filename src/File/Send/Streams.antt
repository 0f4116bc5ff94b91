-- ===== src/File/Send/Streams.antt =====
-- The stream that src/aux/file/send.rs makes of a file.
use lidi.Prelude.{
  ℕ, zero, suc, ◌+◌, ◌-◌, ◌≤◌, ◌<◌, ◌≡◌, ap, sym, ◌∙◌, Option, some, true, List, [], ◌∷◌, ◌++◌,
  length, take, drop, arith, All, append_assoc, append-nil, lt→ltb, ge→ltb, length-append,
  length-take, length-drop, take-append-drop,
}
use native.Mathlib.Decide.{dec_lt}
use lidi.Prelude.Bytes.{to_le_bytes}
use lidi.Prelude.Outcome.{ok}
use lidi.Stream.{Turn, Reader}
use lidi.Stream.Laws.{Works}
use lidi.File.{Hasher, Config}
use lidi.File.Framing.{Header}
use lidi.File.Framing.RoundTrip.{encoded, holding, serialize_to-encoded}
use lidi.File.Chunks.{new_hasher, hash_vec, write}
use lidi.File.Chunks.Digest.{digest, digest-again, digest-full, round-Moves}
use lidi.File.Send.{Source, loop, footer_hash, send_file_aux}
use lidi.File.Send.Rounds.{round-over, finish-ok, loop-again, loop-full, loop-over}

module _ (hasher : Hasher) (config : Config) where
  -- The rest of the stream: the bytes and the footer.
  abbrev streamed : Option hasher.H → List ℕ → List ℕ → List ℕ → List ℕ
  streamed h filled input before =
      (before ++ (filled ++ input))
      ++ to_le_bytes 16
          (footer_hash hasher config (digest hasher config.buffer_size h filled input))

  abbrev footer_of : Option hasher.H → List ℕ
  footer_of h = to_le_bytes 16 (footer_hash hasher config h)

  ended :
      (h : Option hasher.H) (filled before : List ℕ)
      → (before ++ filled) ++ footer_of (write hasher h filled) ≡ streamed h filled [] before
  unfolding digest
  ended h filled before =
      ap (λ l. (before ++ l) ++ footer_of (write hasher h filled)) (sym (append-nil filled))

  pub rejoined :
      (filled : List ℕ) (x c : ℕ) (xs : List ℕ)
      → (filled ++ x ∷ take c xs) ++ drop c xs ≡ filled ++ x ∷ xs
  rejoined filled x c xs =
      append_assoc filled (x ∷ take c xs) (drop c xs)
      ∙ ap (λ l. filled ++ x ∷ l) (take-append-drop c xs)

  pub digest-kept :
      (filled : List ℕ) (x c : ℕ) (xs : List ℕ) (h : Option hasher.H)
      → length filled + length (x ∷ take c xs) < config.buffer_size
      → digest hasher config.buffer_size h filled (x ∷ xs)
        ≡ digest hasher config.buffer_size h (filled ++ x ∷ take c xs) (drop c xs)
  digest-kept filled x c xs h short =
      ap (λ l. digest hasher config.buffer_size h filled (x ∷ l)) (sym (take-append-drop c xs))
      ∙ digest-again hasher config.buffer_size h filled (x ∷ take c xs) (drop c xs) short

  pub digest-moved :
      (filled : List ℕ) (x c : ℕ) (xs : List ℕ) (h : Option hasher.H)
      → length filled + length (x ∷ take c xs) ≡ config.buffer_size
      → digest hasher config.buffer_size h filled (x ∷ xs)
        ≡ digest hasher config.buffer_size
            (hash_vec hasher h (filled ++ x ∷ take c xs))
            []
            (drop c xs)
  digest-moved filled x c xs h e =
      ap (λ l. digest hasher config.buffer_size h filled (x ∷ l)) (sym (take-append-drop c xs))
      ∙ digest-full hasher config.buffer_size h filled x (take c xs) (drop c xs) e

  kept :
      (h : Option hasher.H) (filled : List ℕ) (x c : ℕ) (xs before : List ℕ)
      → length filled + length (x ∷ take c xs) < config.buffer_size
      → streamed h (filled ++ x ∷ take c xs) (drop c xs) before ≡ streamed h filled (x ∷ xs) before
  kept h filled x c xs before short =
      let same = sym (digest-kept filled x c xs h short) in
      ap
        (λ l.
          (before ++ l)
          ++ footer_of (digest hasher config.buffer_size h (filled ++ x ∷ take c xs) (drop c xs)))
        (rejoined filled x c xs)
      ∙ ap (λ d. (before ++ (filled ++ x ∷ xs)) ++ footer_of d) same

  pub fills :
      (filled : List ℕ) (x c : ℕ) (xs : List ℕ)
      → suc c ≤ config.buffer_size - length filled
      → ¬ (length filled + length (x ∷ take c xs) < config.buffer_size)
      → length filled + length (x ∷ take c xs) ≡ config.buffer_size
  fills filled x c xs most enough = omega (arith, length-take c xs)

  counted :
      (filled : List ℕ) (x c : ℕ) (xs : List ℕ) (total : ℕ)
      → length filled + length (x ∷ take c xs) ≡ config.buffer_size
      → total + config.buffer_size + length (drop c xs) ≡ total + length (filled ++ x ∷ xs)
  counted filled x c xs total e =
      omega (arith, length-take c xs, length-drop c xs, length-append filled (x ∷ xs))

  moved :
      (h : Option hasher.H) (filled : List ℕ) (x c : ℕ) (xs before : List ℕ)
      → length filled + length (x ∷ take c xs) ≡ config.buffer_size
      → streamed
          (hash_vec hasher h (filled ++ x ∷ take c xs))
          []
          (drop c xs)
          (before ++ (filled ++ x ∷ take c xs))
        ≡ streamed h filled (x ∷ xs) before
  moved h filled x c xs before e =
      let buffer = filled ++ x ∷ take c xs in
      let same = sym (digest-moved filled x c xs h e) in
      ap
        (λ l.
          l
          ++ footer_of (digest hasher config.buffer_size (hash_vec hasher h buffer) [] (drop c xs)))
        (append_assoc before buffer (drop c xs) ∙ ap (λ l. before ++ l) (rejoined filled x c xs))
      ∙ ap (λ d. (before ++ (filled ++ x ∷ xs)) ++ footer_of d) same

  loop-streams :
      (fuel : ℕ) (filled input before : List ℕ) (schedule : List Turn) (h : Option hasher.H)
      (total : ℕ)
      → All Works schedule
      → length input < fuel
      → length filled < config.buffer_size
      → loop hasher config fuel filled
          (record { input = input; schedule = schedule })
          h
          total
          (holding before)
        ≡ some (ok (total + length (filled ++ input), holding (streamed h filled input before)))
  loop-streams zero filled input before schedule h total w hf less = absurd (omega arith)
  loop-streams (suc fuel) filled [] before schedule h total w hf less =
      let (after, e) =
        round-over config.buffer_size (config.buffer_size - length filled) filled schedule
          (omega arith) w in
      loop-over hasher config fuel filled _ _ h total (holding before) e
      ∙ ap some (finish-ok hasher config filled before h total)
      ∙ ap (λ (p : ℕ × List ℕ). some (ok (p.0, holding p.1)))
          (cc (ap (λ l. total + length l) (sym (append-nil filled)), ended h filled before))
  loop-streams (suc fuel) filled (x ∷ xs) before schedule h total w hf less =
      let m =
        round-Moves config.buffer_size (config.buffer_size - length filled) filled x xs schedule
          (omega arith) w in
      let bytes = x ∷ take m.count xs in
      let left = drop m.count xs in
      elim (dec_lt (length filled + length bytes) config.buffer_size) [
        | yes short ↦
            loop-again hasher config fuel (length bytes) filled (filled ++ bytes) _ _ h total
              (holding before)
              (m.result ∙ rw (lt→ltb (length filled + length bytes) config.buffer_size short))
            ∙ loop-streams fuel (filled ++ bytes) left before m.after h total m.works
                (omega (arith, length-drop m.count xs)) (omega (arith, length-append filled bytes))
            ∙ ap (λ (p : ℕ × List ℕ). some (ok (p.0, holding p.1)))
                (cc (
                  ap (λ l. total + length l) (rejoined filled x m.count xs),
                  kept h filled x m.count xs before short,
                ))
        | no enough ↦
            loop-full hasher config fuel (length bytes) filled (filled ++ bytes) before _ _ h total
              (m.result
                ∙ rw (ge→ltb (length filled + length bytes) config.buffer_size (omega arith)))
            ∙ loop-streams fuel [] left (before ++ (filled ++ bytes)) m.after
                (hash_vec hasher h (filled ++ bytes)) (total + config.buffer_size) m.works
                (omega (arith, length-drop m.count xs)) (omega arith)
            ∙ ap (λ (p : ℕ × List ℕ). some (ok (p.0, holding p.1)))
                (cc (
                  counted filled x m.count xs total (fills filled x m.count xs m.most enough),
                  moved h filled x m.count xs before (fills filled x m.count xs m.most enough),
                ))
      ]

  -- A file that can be read.
  pub record Readable (source : Source) (file : Reader) (header : Header) : Type 0 where
    pub is_file : source.is_file ≡ true
    pub opened : source.opened ≡ ok file
    pub named : source.file_name ≡ some (some header.file_name)
    pub described : source.metadata ≡ ok (header.mode, header.file_length)
    pub works : All Works file.schedule

  -- What goes through the diode for it.
  abbrev pub stream : Header → List ℕ → List ℕ
  stream header bytes =
      (encoded header ++ bytes)
      ++ footer_of (digest hasher config.buffer_size (new_hasher hasher config.hash) [] bytes)

  -- With a buffer, a readable file and a diode that takes all: `send_file_aux` returns the number of
  -- bytes of the file and has written the header, the bytes and the footer, whose hash is that of
  -- the bytes in buffers, however the reads were cut.
  pub send_file_aux-streams :
      (source : Source) (file : Reader) (header : Header)
      → 0 < config.buffer_size
      → Readable source file header
      → send_file_aux hasher config source (holding [])
        ≡ some (ok (length file.input, holding (stream header file.input)))
  unfolding send_file_aux
  send_file_aux-streams source file header room readable = rw (readable.is_file) (
      rw (readable.opened) (
        rw (readable.named) (
          rw (readable.described) (
            rw (serialize_to-encoded header []) (
              loop-streams (suc (length file.input)) [] file.input (encoded header) file.schedule
                (new_hasher hasher config.hash) 0 readable.works (omega arith) room
              ∙ ap (λ n. some (ok (n, holding (stream header file.input)))) (omega arith))))))
