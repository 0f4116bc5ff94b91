-- ===== src/Programs/FloodTest.antt =====
-- src/bin/diode-flood-test.rs: the client of a sender that sends random bytes for ever. The random
-- numbers are a list, and the loop is followed for as many rounds as it has.
use Prim.Native.Nat.{bit_xor}
use lidi.Prelude.{
  ℕ, ◌*◌, ◌%◌, ◌≡◌, sym, ap, ◌∙◌, append-nil, append_assoc, Option, none, some, List, [], ◌∷◌, ◌++◌,
  map, length, arith, if◌then◌else◌, String, length-map, length-append,
}
use lidi.Prelude.Outcome.{Outcome, ok, err, panic}
use lidi.Stream.{IoError, Writer, write_all}
use lidi.Diode
use lidi.Programs
use lidi.Programs.{Exit, returned, World, endpoint}

pub record Args : Type 0 where
  pub to_tcp : Option String
  pub to_unix : Option String
  pub buffer_size : ℕ

-- `*n ^= rnd` for each byte, with the low byte of what was drawn
abbrev mix : ℕ → List ℕ → List ℕ
mix draw = map (λ n. bit_xor n (draw % 256))

-- The loop of `start`: what was written, and the end, `none` while it runs.
pub loop : List ℕ → List ℕ → Writer → Writer × Option Exit
loop [] buffer diode = (diode, none)
loop (draw ∷ draws) buffer diode = elim (write_all diode (mix draw buffer)) [
  | ok diode' ↦ loop draws (mix draw buffer) diode'
  | err e ↦ (diode, some Programs.panicked)
  | panic ↦ (diode, some Programs.panicked)
]

-- `connect` with `expect`, and `start`; `fill` is what `fill_bytes` draws for a length.
abbrev start : (ℕ → List ℕ) → List ℕ → ℕ → Outcome IoError Writer → Option Writer × Option Exit
start fill draws buffer_size (ok diode) =
    let (written, result) = loop draws (fill buffer_size) diode in (some written, result)
start fill draws buffer_size (err e) = (none, some Programs.panicked)
start fill draws buffer_size panic = (none, some Programs.panicked)

module _ (world : World) (connect : Diode.DiodeSend String → Outcome IoError Writer)
    (fill : ℕ → List ℕ) (draws : List ℕ) where
  abbrev flood : ℕ → Option (Diode.DiodeSend String) → Option Writer × Option Exit
  flood buffer_size none = (none, some Programs.panicked)
  flood buffer_size (some diode) = start fill draws buffer_size (connect diode)

  unfoldable pub main : Args → Option Writer × Option Exit
  unfolding loop
  main args =
      if world.has_logger
      then flood args.buffer_size (endpoint args.to_tcp args.to_unix)
      else (none, some returned)

-- Over a diode that takes all, a round writes a whole buffer, and the loop goes on.
loop-whole :
    (draws buffer before : List ℕ)
    → (bytes : List ℕ) × (loop draws buffer (record { written = before; faults = [] })
        ≡ (record { written = before ++ bytes; faults = [] }, none))
      × (length bytes ≡ length draws * length buffer)
unfolding loop write_all
loop-whole [] buffer before = (
  [],
  ap (λ l. (record { written = l; faults = [] }, none)) (sym (append-nil before)),
  omega arith,
)
loop-whole (draw ∷ draws) buffer before =
    let mixed = mix draw buffer in
    let (bytes, ran, len) = loop-whole draws mixed (before ++ mixed) in
    (
      mixed ++ bytes,
      ran ∙ ap (λ l. (record { written = l; faults = [] }, none)) (append_assoc before mixed bytes),
      grind (arith, length-append mixed bytes, length-map (λ n. bit_xor n (draw % 256)) buffer),
    )
