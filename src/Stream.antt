-- ===== src/Stream.antt =====
-- Byte streams as the program sees them through `io::Read` and `io::Write`. A reader holds the bytes
-- that are still to come and a schedule, by which the environment chooses how much each read
-- returns: at least one byte where there is one and the buffer has room, at most what fits, and
-- nothing only at the end of the stream or for an empty buffer. A writer holds what was written.
pub mod Laws
use lidi.Prelude.{
  ℕ, zero, suc, ◌-◌, min, max, Bool, true, false, List, [], ◌∷◌, ◌++◌, take, drop, length, ltb, leb,
  ◌==◌, if◌then◌else◌,
}
use lidi.Prelude.Outcome.{Outcome, ok, err, panic, ◌>>=◌}

pub data IoError : Type 0 where
  failed unexpected_eof : IoError

-- What the environment does at one read.
pub data Turn : Type 0 where
  some_bytes : ℕ → Turn
  broken : Turn

pub record Reader : Type 0 where
  pub input : List ℕ
  pub schedule : List Turn

abbrev pub read_some : ℕ → List ℕ → List Turn → List ℕ × Reader
read_some n input schedule = (take n input, record { input = drop n input; schedule = schedule })

abbrev read_turn : ℕ → List ℕ → List Turn → Outcome IoError (List ℕ × Reader)
read_turn n input [] = ok (read_some n input [])
read_turn n input (some_bytes k ∷ schedule) = ok (read_some (min n (max 1 k)) input schedule)
read_turn n input (broken ∷ schedule) = err failed

-- `read` into a buffer of `n` bytes
unfoldable pub read : Reader → ℕ → Outcome IoError (List ℕ × Reader)
read r n = read_turn n r.input r.schedule

-- `read_exact`: reads are repeated until the buffer is full; each brings a byte, so as many rounds
-- as bytes are enough (and running out of them, which is `panic` here, does not happen).
pub fill : ℕ → ℕ → List ℕ → Reader → Outcome IoError (List ℕ × Reader)
fill fuel zero got r = ok (got, r)
fill zero (suc n) got r = panic
fill (suc fuel) (suc n) got r = do
  (bytes, r') ← read r (suc n)
  let rest = fill fuel (suc n - length bytes) (got ++ bytes) r'
  if length bytes == 0 then err unexpected_eof else rest

unfoldable pub read_exact : Reader → ℕ → Outcome IoError (List ℕ × Reader)
unfolding fill
read_exact r n = fill n n [] r

-- A writer; `faults` says which of the next writes and flushes fail.
pub record Writer : Type 0 where
  pub written : List ℕ
  pub faults : List Bool

abbrev attempt : Writer → List ℕ → List Bool → Outcome IoError Writer
attempt w bytes [] = ok (record { written = w.written ++ bytes; faults = [] })
attempt w bytes (true ∷ faults) = err failed
attempt w bytes (false ∷ faults) = ok (record { written = w.written ++ bytes; faults = faults })

unfoldable pub write_all : Writer → List ℕ → Outcome IoError Writer
write_all w bytes = attempt w bytes w.faults

unfoldable pub flush : Writer → Outcome IoError Writer
flush w = attempt w [] w.faults
