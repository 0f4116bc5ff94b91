-- ===== src/File/Receive/Rounds.antt =====
-- One round of `receive_file` in src/aux/file/receive.rs, and its end.
use lidi.Prelude.{
  ℕ, suc, ◌+◌, ◌-◌, ◌^◌, ◌≤◌, ◌<◌, ◌≡◌, refl, ap, ◌∙◌, Option, none, some, List, [], ◌∷◌, ◌++◌,
  length, take, drop, arith, All, append-nil, lt→ltb, ge→ltb, le→leb, gt→leb, take-append_le,
  drop-append_le, eq→==,
}
use native.Mathlib.Decide.{dec_le}
use lidi.Prelude.Bytes.{to_le_bytes, length-to_le_bytes, from_le_bytes-to_le_bytes}
use lidi.Prelude.Outcome.{ok}
use lidi.Stream
use lidi.Stream.{Turn, Reader, Writer, write_all}
use lidi.Stream.Laws.{Works, read-empty, read_exact-Filled}
use lidi.File.{Hasher, Config}
use lidi.File.Framing.{footer_deserialize_from}
use lidi.File.Framing.RoundTrip.{holding}
use lidi.File.Chunks.{again, full, over, round, on_read, hash_vec, write}
use lidi.File.Chunks.Digest.{digest, round-Moves}
use lidi.File.Send.{footer_hash}
use lidi.File.Receive.{check, finish, room, loop}

pub round-empty :
    (buffer_size : ℕ) (filled input : List ℕ) (schedule : List Turn)
    → All Works schedule
    → (after : List Turn) × (round buffer_size 0 filled
          (record { input = input; schedule = schedule })
        ≡ over (record { input = input; schedule = after }))
      × All Works after
unfolding round
round-empty buffer_size filled input schedule w =
    let (after, e, w') = read-empty (record { input = input; schedule = schedule }) w in
    (after, rw e refl, w')

footer-read :
    (hash : ℕ) (rest : List ℕ) (schedule : List Turn)
    → hash < 256 ^ 16
    → All Works schedule
    → (after : List Turn) × (footer_deserialize_from
          (record { input = to_le_bytes 16 hash ++ rest; schedule = schedule })
        ≡ ok (hash, record { input = rest; schedule = after }))
unfolding footer_deserialize_from
footer-read hash rest schedule h w =
    let f =
      read_exact-Filled (to_le_bytes 16 hash) rest schedule 16 (length-to_le_bytes 16 hash) w in
    (
      f.after,
      rw (f.done) (
          ap (λ n. ok (n, record { input = rest; schedule = f.after }))
            (from_le_bytes-to_le_bytes 16 hash h)),
    )

module _ (hasher : Hasher) (config : Config) where
  abbrev pub footer_of : Option hasher.H → List ℕ
  footer_of h = to_le_bytes 16 (footer_hash hasher config h)

  -- A 128-bit hash.
  abbrev pub Fits : Type 0
  Fits = (h : hasher.H) → hasher.finish_ext h < 2 ^ 128

  footer_hash-lt : Fits → (h : Option hasher.H) → footer_hash hasher config h < 256 ^ 16
  footer_hash-lt fits none = omega arith
  footer_hash-lt fits (some h) = omega (arith, fits h)

  check-ok :
      (h : Option hasher.H) (received : ℕ) (file : Writer)
      → check hasher config (footer_hash hasher config h) h received file ≡ ok (received, file)
  check-ok none received file = refl
  check-ok (some h) received file = rw (eq→== (hasher.finish_ext h) (hasher.finish_ext h) refl)

  finish-ok :
      (fits : Fits) (file_length : ℕ) (filled before rest : List ℕ) (schedule : List Turn)
      (h : Option hasher.H)
      → All Works schedule
      → finish hasher config file_length 0 filled
          (record { input = footer_of (write hasher h filled) ++ rest; schedule = schedule })
          h
          (holding before)
        ≡ ok (file_length, holding (before ++ filled))
  unfolding finish write_all Stream.flush footer_deserialize_from
  finish-ok fits file_length [] before rest schedule h w =
      let (after, e) =
        footer-read (footer_hash hasher config h) rest schedule (footer_hash-lt fits h) w in
      rw (e) (
        check-ok h (file_length - 0) (holding (before ++ []))
        ∙ ap (λ n. ok (n, holding (before ++ []))) (omega arith))
  finish-ok fits file_length (x ∷ filled) before rest schedule h w =
      let h' = write hasher h (x ∷ filled) in
      let (after, e) =
        footer-read (footer_hash hasher config h') rest schedule (footer_hash-lt fits h') w in
      rw (e) (
        check-ok h' (file_length - 0) (holding ((before ++ x ∷ filled) ++ []))
        ∙ ap (λ n. ok (n, holding ((before ++ x ∷ filled) ++ []))) (omega arith)
        ∙ ap (λ l. ok (file_length, holding l)) (append-nil (before ++ x ∷ filled)))

  pub on_read-again :
      (filled : List ℕ) (x : ℕ) (bytes : List ℕ) (client : Reader)
      → length filled + length (x ∷ bytes) < config.buffer_size
      → on_read config.buffer_size filled (x ∷ bytes) client
        ≡ again (filled ++ x ∷ bytes) (length (x ∷ bytes)) client
  on_read-again filled x bytes client short =
      rw (lt→ltb (length filled + length (x ∷ bytes)) config.buffer_size short)

  pub on_read-full :
      (filled : List ℕ) (x : ℕ) (bytes : List ℕ) (client : Reader)
      → ¬ (length filled + length (x ∷ bytes) < config.buffer_size)
      → on_read config.buffer_size filled (x ∷ bytes) client
        ≡ full (filled ++ x ∷ bytes) (length (x ∷ bytes)) client
  on_read-full filled x bytes client enough =
      rw (ge→ltb (length filled + length (x ∷ bytes)) config.buffer_size (omega arith))

  pub finish-digest :
      (fits : Fits) (file_length : ℕ) (filled before rest : List ℕ) (schedule : List Turn)
      (h : Option hasher.H)
      → All Works schedule
      → finish hasher config file_length 0 filled
          (record {
            input = footer_of (digest hasher config.buffer_size h filled []) ++ rest;
            schedule = schedule;
          })
          h
          (holding before)
        ≡ ok (file_length, holding (before ++ filled))
  unfolding digest
  finish-digest fits file_length filled before rest schedule h w =
      finish-ok fits file_length filled before rest schedule h w

  pub loop-again :
      (file_length fuel remaining nread : ℕ) (filled filled' : List ℕ) (client client' : Reader)
      (h : Option hasher.H) (file : Writer)
      → round config.buffer_size (room hasher config remaining filled) filled client
        ≡ again filled' nread client'
      → loop hasher config file_length (suc fuel) remaining filled client h file
        ≡ loop hasher config file_length fuel (remaining - nread) filled' client' h file
  unfolding loop
  loop-again file_length fuel remaining nread filled filled' client client' h file e = rw (e, loop)

  pub loop-full :
      (file_length fuel remaining nread : ℕ) (filled buffer before : List ℕ)
      (client client' : Reader) (h : Option hasher.H)
      → round config.buffer_size (room hasher config remaining filled) filled client
        ≡ full buffer nread client'
      → loop hasher config file_length (suc fuel) remaining filled client h (holding before)
        ≡ loop hasher config file_length fuel
            (remaining - nread)
            []
            client'
            (hash_vec hasher h buffer)
            (holding (before ++ buffer))
  unfolding loop write_all
  loop-full file_length fuel remaining nread filled buffer before client client' h e = rw (e, loop)

  pub loop-over :
      (file_length fuel remaining : ℕ) (filled : List ℕ) (client client' : Reader)
      (h : Option hasher.H) (file : Writer)
      → round config.buffer_size (room hasher config remaining filled) filled client ≡ over client'
      → loop hasher config file_length (suc fuel) remaining filled client h file
        ≡ some (finish hasher config file_length remaining filled client' h file)
  unfolding loop
  loop-over file_length fuel remaining filled client client' h file e = rw (e, loop)

  pub room-none :
      (filled : List ℕ) → length filled < config.buffer_size → room hasher config 0 filled ≡ 0
  room-none filled less = rw (gt→leb (config.buffer_size - length filled) 0 (omega arith))

  -- There is room for a byte, and for no more than remain or fit.
  room-some :
      (remaining : ℕ) (filled : List ℕ)
      → length filled < config.buffer_size
      → 0 < remaining
      → let n = room hasher config remaining filled in
        (1 ≤ n) × (n ≤ remaining) × (n ≤ config.buffer_size - length filled)
  room-some remaining filled less some_left =
      elim (dec_le (config.buffer_size - length filled) remaining) [
        | yes h ↦
            rw (le→leb (config.buffer_size - length filled) remaining h)
              (omega arith, omega arith, omega arith)
        | no h ↦
            rw (gt→leb (config.buffer_size - length filled) remaining (omega arith))
              (omega arith, omega arith, omega arith)
      ]

  abbrev pub behind : List ℕ → Option hasher.H → List ℕ
  behind rest d = footer_of d ++ rest

  -- One round where bytes remain: what is moved, before it is known whether the buffer is full.
  pub record Takes (filled : List ℕ) (x : ℕ) (xs tail : List ℕ) (client : Reader) : Type 0 where
    pub count : ℕ
    pub after : List Turn
    pub within : count ≤ length xs
    pub most : suc count ≤ config.buffer_size - length filled
    pub works : All Works after
    pub result :
        round config.buffer_size (room hasher config (length (x ∷ xs)) filled) filled client
        ≡ on_read config.buffer_size filled
            (x ∷ take count xs)
            (record { input = drop count xs ++ tail; schedule = after })

  pub takes :
      (filled : List ℕ) (x : ℕ) (xs tail : List ℕ) (schedule : List Turn)
      → length filled < config.buffer_size
      → All Works schedule
      → Takes filled x xs tail (record { input = x ∷ xs ++ tail; schedule = schedule })
  takes filled x xs tail schedule less w =
      let (least, within, fits) = room-some (length (x ∷ xs)) filled less (omega arith) in
      let m =
        round-Moves config.buffer_size (room hasher config (length (x ∷ xs)) filled) filled x
          (xs ++ tail) schedule least w in
      let short : m.count ≤ length xs = omega (arith, m.most) in
      record {
        count = m.count;
        after = m.after;
        within = short;
        most = omega (arith, m.most);
        works = m.works;
        result =
            m.result
            ∙ rw (take-append_le m.count xs tail short, drop-append_le m.count xs tail short);
      }
