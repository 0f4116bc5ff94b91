-- ===== src/Stream/Laws.antt =====
-- Reads and writes that do not fail.
use lidi.Prelude.{
  ℕ, zero, suc, ◌-◌, ◌≤◌, ◌≡◌, refl, ap, sym, ◌∙◌, min, max, List, [], ◌∷◌, ◌++◌, take, drop,
  length, arith, All, length-take, length-drop, append_assoc, take-append-drop, append-nil, ne→==,
  ◌==◌, if◌then◌else◌, take-append_le, drop-append_le, ◌⊎◌, inl, inr,
}
use lidi.Prelude.Outcome.{Outcome, ok, err, ◌>>=◌}
use lidi.Stream.{
  IoError, failed, unexpected_eof, Turn, some_bytes, broken, Reader, read_some, read, fill,
  read_exact, Writer, write_all,
}

abbrev pub Works : Turn → Type 0
Works (some_bytes k) = Unit
Works broken = ⊥

-- A read with room for `n` bytes takes between 1 and `n` of them.
pub record Took (n : ℕ) (r : Reader) : Type 0 where
  pub count : ℕ
  pub after : List Turn
  pub least : 1 ≤ count
  pub most : count ≤ n
  pub result : read r n ≡ ok (read_some count r.input after)
  pub works : All Works after

pub read-Took : (n : ℕ) (r : Reader) → 1 ≤ n → All Works r.schedule → Took n r
unfolding read
read-Took n r h w = by_schedule r.schedule r.input w
  where
    by_schedule :
        (schedule : List Turn) (input : List ℕ)
        → All Works schedule
        → Took n (record { input = input; schedule = schedule })
    by_schedule [] input w = record {
      count = n;
      after = [];
      least = h;
      most = omega arith;
      result = refl;
      works = tt;
    }
    by_schedule (some_bytes k ∷ schedule) input w = record {
      count = min n (max 1 k);
      after = schedule;
      least = omega arith;
      most = omega arith;
      result = refl;
      works = w.1;
    }
    by_schedule (broken ∷ schedule) input w = absurd w.0

-- A read of whatever reader: it takes as much, or fails, which a reader that works does not.
pub record Tried (n : ℕ) (r : Reader) : Type 0 where
  pub count : ℕ
  pub after : List Turn
  pub least : 1 ≤ count
  pub most : count ≤ n
  pub result : read r n ≡ ok (read_some count r.input after)
  pub works : All Works r.schedule → All Works after

pub read-Tried :
    (n : ℕ) (input : List ℕ) (schedule : List Turn)
    → 1 ≤ n
    → let r : Reader = record { input = input; schedule = schedule } in
      Tried n r ⊎ ((read r n ≡ err failed) × ¬ All Works schedule)
unfolding read
read-Tried n input [] h = inl (record {
  count = n;
  after = [];
  least = h;
  most = omega arith;
  result = refl;
  works = λ w. tt;
})
read-Tried n input (some_bytes k ∷ schedule) h = inl (record {
  count = min n (max 1 k);
  after = schedule;
  least = omega arith;
  most = omega arith;
  result = refl;
  works = λ w. w.1;
})
read-Tried n input (broken ∷ schedule) h = inr (refl, λ w. w.0)

pub write_all-ok :
    (w : Writer) (bytes : List ℕ)
    → w.faults ≡ []
    → write_all w bytes ≡ ok (record { written = w.written ++ bytes; faults = [] })
unfolding write_all
write_all-ok w bytes h = rw h

-- What `read_exact` leaves behind: `n` bytes, and a reader that works at the bytes behind them.
pub record Filled (result : Outcome IoError (List ℕ × Reader)) (bytes rest : List ℕ) : Type 0 where
  pub after : List Turn
  pub done : result ≡ ok (bytes, record { input = rest; schedule = after })
  pub works : All Works after

fill-Filled :
    (fuel n : ℕ) (got bytes rest : List ℕ) (schedule : List Turn)
    → n ≤ fuel
    → length bytes ≡ n
    → All Works schedule
    → Filled
        (fill fuel n got (record { input = bytes ++ rest; schedule = schedule }))
        (got ++ bytes)
        rest
unfolding fill
fill-Filled fuel zero got [] rest schedule hf h w = record {
  after = schedule;
  done = ap (λ l. ok (l, record { input = rest; schedule = schedule })) (sym (append-nil got));
  works = w;
}
fill-Filled fuel zero got (x ∷ xs) rest schedule hf h w = absurd (omega arith)
fill-Filled zero (suc n) got bytes rest schedule hf h w = absurd (omega arith)
fill-Filled (suc fuel) (suc n) got bytes rest schedule hf h w =
    let later =
      fill-Filled fuel (suc n - c) (got ++ take c bytes) (drop c bytes) rest took.after
        (omega (arith, took.least)) (omega (arith, length-drop c bytes)) took.works in
    record {
      after = later.after;
      done =
          ap (λ m. m >>= next) took.result
          ∙ ap2_next
          ∙ later.done
          ∙ ap (λ l. ok (l, record { input = rest; schedule = later.after })) joined;
      works = later.works;
    }
  where
    r : Reader
    r = record { input = bytes ++ rest; schedule = schedule }

    took : Took (suc n) r
    took = read-Took (suc n) r (omega arith) w

    c : ℕ
    c = took.count

    next : List ℕ × Reader → Outcome IoError (List ℕ × Reader)
    next x =
        if length x.0 == 0
        then err unexpected_eof
        else fill fuel (suc n - length x.0) (got ++ x.0) x.1

    head : length (take c bytes) ≡ c
    head = omega (arith, length-take c bytes, took.most)

    ap2_next :
        next (read_some c (bytes ++ rest) took.after)
        ≡ fill fuel
            (suc n - c)
            (got ++ take c bytes)
            (record { input = drop c bytes ++ rest; schedule = took.after })
    ap2_next = rw (
      take-append_le c bytes rest (omega (arith, took.most)),
      drop-append_le c bytes rest (omega (arith, took.most)),
      head,
      ne→== c 0 (omega (arith, took.least)),
    )

    joined : (got ++ take c bytes) ++ drop c bytes ≡ got ++ bytes
    joined =
        append_assoc got (take c bytes) (drop c bytes)
        ∙ ap (λ l. got ++ l) (take-append-drop c bytes)

-- `read_exact` of as many bytes as `bytes` has, at a reader that begins with them.
pub read_exact-Filled :
    (bytes rest : List ℕ) (schedule : List Turn) (n : ℕ)
    → length bytes ≡ n
    → All Works schedule
    → Filled (read_exact (record { input = bytes ++ rest; schedule = schedule }) n) bytes rest
unfolding read_exact
read_exact-Filled bytes rest schedule n h w =
    fill-Filled n n [] bytes rest schedule (omega arith) h w

-- A read into an empty buffer takes nothing.
pub read-empty :
    (r : Reader)
    → All Works r.schedule
    → (after : List Turn) × (read r 0 ≡ ok ([], record { input = r.input; schedule = after }))
      × All Works after
unfolding read
read-empty r w = by_schedule r.schedule w
  where
    none_fit : (k : ℕ) → min 0 (max 1 k) ≡ 0
    none_fit k = omega arith

    by_schedule :
        (schedule : List Turn)
        → All Works schedule
        → (after : List Turn) × (read (record { input = r.input; schedule = schedule }) 0
            ≡ ok ([], record { input = r.input; schedule = after }))
          × All Works after
    by_schedule [] w = ([], refl, tt)
    by_schedule (some_bytes k ∷ schedule) w =
        (schedule, ap (λ n. ok (read_some n r.input schedule)) (none_fit k), w.1)
    by_schedule (broken ∷ schedule) w = absurd w.0

-- `read_exact` of at least a byte at the end of the stream.
pub read_exact-eof :
    (n : ℕ) (schedule : List Turn)
    → All Works schedule
    → read_exact (record { input = []; schedule = schedule }) (suc n) ≡ err unexpected_eof
unfolding read_exact fill
read_exact-eof n schedule w =
    let took = read-Took (suc n) (record { input = []; schedule = schedule }) (omega arith) w in
    ap (λ m. m >>= next) took.result ∙ nothing took.count took.after
  where
    next : List ℕ × Reader → Outcome IoError (List ℕ × Reader)
    next x =
        if length x.0 == 0 then err unexpected_eof else fill n (suc n - length x.0) ([] ++ x.0) x.1

    nothing : (c : ℕ) (after : List Turn) → next (read_some c [] after) ≡ err unexpected_eof
    nothing zero after = refl
    nothing (suc c) after = refl
