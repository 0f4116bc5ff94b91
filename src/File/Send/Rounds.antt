-- ===== src/File/Send/Rounds.antt =====
-- The rounds of the loop in src/aux/file/send.rs, one at a time.
use lidi.Prelude.{
  ℕ, zero, suc, ◌+◌, ◌-◌, ◌≤◌, ◌≡◌, refl, ap, sym, ◌∙◌, Option, some, List, [], ◌∷◌, ◌++◌, length,
  take, drop, All, append-nil,
}
use lidi.Prelude.Bytes.{to_le_bytes}
use lidi.Prelude.Outcome.{ok}
use lidi.Stream
use lidi.Stream.{Turn, Reader, Writer, write_all}
use lidi.Stream.Laws.{Works, read-Took}
use lidi.File.{Hasher, Config}
use lidi.File.Framing.{footer_serialize_to}
use lidi.File.Framing.RoundTrip.{holding}
use lidi.File.Chunks.{again, full, over, round, on_read, hash_vec, write}
use lidi.File.Send.{loop, finish, footer_hash}

-- A read at the end of the file.
pub round-over :
    (buffer_size n : ℕ) (filled : List ℕ) (schedule : List Turn)
    → 1 ≤ n
    → All Works schedule
    → (after : List Turn) × (round buffer_size n filled (record { input = []; schedule = schedule })
        ≡ over (record { input = []; schedule = after }))
unfolding round
round-over buffer_size n filled schedule h w =
    let took = read-Took n (record { input = []; schedule = schedule }) h w in
    (took.after, rw took.result (nothing took.count took.after))
  where
    nothing :
        (c : ℕ) (after : List Turn)
        → on_read buffer_size filled (take c []) (record { input = drop c []; schedule = after })
          ≡ over (record { input = []; schedule = after })
    nothing zero after = refl
    nothing (suc c) after = refl

put_empty : (before footer : List ℕ) → (before ++ footer) ++ [] ≡ (before ++ []) ++ footer
put_empty before footer =
    append-nil (before ++ footer) ∙ ap (λ l. l ++ footer) (sym (append-nil before))

module _ (hasher : Hasher) (config : Config) where
  pub finish-ok :
      (filled before : List ℕ) (h : Option hasher.H) (total : ℕ)
      → finish hasher config filled h total (holding before)
        ≡ ok (
          total + length filled,
          holding (
              (before ++ filled)
              ++ to_le_bytes 16 (footer_hash hasher config (write hasher h filled))),
        )
  unfolding finish write_all Stream.flush footer_serialize_to
  finish-ok [] before h total =
      let footer = to_le_bytes 16 (footer_hash hasher config h) in
      ap (λ l. ok (total + 0, holding l)) (put_empty before footer)
  finish-ok (x ∷ filled) before h total =
      let footer = to_le_bytes 16 (footer_hash hasher config (write hasher h (x ∷ filled))) in
      ap (λ l. ok (total + length (x ∷ filled), holding l))
        (append-nil ((before ++ x ∷ filled) ++ footer))

  pub loop-again :
      (fuel nread : ℕ) (filled filled' : List ℕ) (file file' : Reader) (h : Option hasher.H)
      (total : ℕ) (w : Writer)
      → round config.buffer_size (config.buffer_size - length filled) filled file
        ≡ again filled' nread file'
      → loop hasher config (suc fuel) filled file h total w
        ≡ loop hasher config fuel filled' file' h total w
  unfolding loop
  loop-again fuel nread filled filled' file file' h total w e = rw (e, loop)

  pub loop-full :
      (fuel nread : ℕ) (filled buffer before : List ℕ) (file file' : Reader) (h : Option hasher.H)
      (total : ℕ)
      → round config.buffer_size (config.buffer_size - length filled) filled file
        ≡ full buffer nread file'
      → loop hasher config (suc fuel) filled file h total (holding before)
        ≡ loop hasher config fuel [] file'
            (hash_vec hasher h buffer)
            (total + config.buffer_size)
            (holding (before ++ buffer))
  unfolding loop write_all
  loop-full fuel nread filled buffer before file file' h total e = rw (e, loop)

  pub loop-over :
      (fuel : ℕ) (filled : List ℕ) (file file' : Reader) (h : Option hasher.H) (total : ℕ)
      (w : Writer)
      → round config.buffer_size (config.buffer_size - length filled) filled file ≡ over file'
      → loop hasher config (suc fuel) filled file h total w
        ≡ some (finish hasher config filled h total w)
  unfolding loop
  loop-over fuel filled file file' h total w e = rw (e, loop)
