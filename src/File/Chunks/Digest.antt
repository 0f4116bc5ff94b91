-- ===== src/File/Chunks/Digest.antt =====
-- The hash of a file as a function of its bytes: full buffers as vectors, then the rest as a slice.
use lidi.Prelude.{
  ℕ, suc, ◌+◌, ◌-◌, ◌≤◌, ◌<◌, ◌≡◌, ap, sym, ◌∙◌, Option, List, [], ◌∷◌, ◌++◌, length, take, drop,
  arith, ltb, if◌then◌else◌, All, append_assoc, append-nil, lt→ltb, ge→ltb, length-append,
}
use lidi.Stream.{Turn, Reader}
use lidi.Stream.Laws.{Works, read-Took}
use lidi.File.{Hasher}
use lidi.File.Chunks.{round, on_read, hash_vec, write}

module _ (hasher : Hasher) (buffer_size : ℕ) where
  -- From a buffer that holds `filled`.
  unfoldable pub digest : Option hasher.H → List ℕ → List ℕ → Option hasher.H
  digest h filled [] = write hasher h filled
  digest h filled (x ∷ bytes) =
      if ltb (length filled + 1) buffer_size
      then digest h (filled ++ x ∷ []) bytes
      else digest (hash_vec hasher h (filled ++ x ∷ [])) [] bytes

  digest-short :
      (h : Option hasher.H) (filled : List ℕ) (x : ℕ) (bytes : List ℕ)
      → length filled + 1 < buffer_size
      → digest h filled (x ∷ bytes) ≡ digest h (filled ++ x ∷ []) bytes
  unfolding digest
  digest-short h filled x bytes less = rw (lt→ltb (length filled + 1) buffer_size less)

  digest-whole :
      (h : Option hasher.H) (filled : List ℕ) (x : ℕ) (bytes : List ℕ)
      → buffer_size ≤ length filled + 1
      → digest h filled (x ∷ bytes) ≡ digest (hash_vec hasher h (filled ++ x ∷ [])) [] bytes
  unfolding digest
  digest-whole h filled x bytes enough = rw (ge→ltb (length filled + 1) buffer_size enough)

  -- A read that leaves the buffer short.
  pub digest-again :
      (h : Option hasher.H) (filled bytes rest : List ℕ)
      → length filled + length bytes < buffer_size
      → digest h filled (bytes ++ rest) ≡ digest h (filled ++ bytes) rest
  digest-again h filled [] rest less = ap (λ l. digest h l rest) (sym (append-nil filled))
  digest-again h filled (x ∷ bytes) rest less =
      digest-short h filled x (bytes ++ rest) (omega arith)
      ∙ digest-again h (filled ++ x ∷ []) bytes rest (omega (arith, length-append filled (x ∷ [])))
      ∙ ap (λ l. digest h l rest) (append_assoc filled (x ∷ []) bytes)

  -- A read that fills it.
  pub digest-full :
      (h : Option hasher.H) (filled : List ℕ) (x : ℕ) (bytes rest : List ℕ)
      → length filled + length (x ∷ bytes) ≡ buffer_size
      → digest h filled (x ∷ bytes ++ rest)
        ≡ digest (hash_vec hasher h (filled ++ x ∷ bytes)) [] rest
  digest-full h filled x [] rest fills = digest-whole h filled x rest (omega arith)
  digest-full h filled x (y ∷ bytes) rest fills =
      digest-short h filled x (y ∷ bytes ++ rest) (omega arith)
      ∙ digest-full h (filled ++ x ∷ []) y bytes rest (omega (arith, length-append filled (x ∷ [])))
      ∙ ap (λ l. digest (hash_vec hasher h l) [] rest) (append_assoc filled (x ∷ []) (y ∷ bytes))

-- What a round does where there is a byte to read and room for it: it moves `bytes` into the buffer,
-- and says whether it is full now.
pub record Moves (buffer_size n : ℕ) (filled : List ℕ) (x : ℕ) (input : List ℕ) (r : Reader)
    : Type 0 where
  pub count : ℕ
  pub after : List Turn
  pub most : suc count ≤ n
  pub works : All Works after
  pub result :
      round buffer_size n filled r
      ≡ on_read buffer_size filled
          (x ∷ take count input)
          (record { input = drop count input; schedule = after })

pub round-Moves :
    (buffer_size n : ℕ) (filled : List ℕ) (x : ℕ) (input : List ℕ) (schedule : List Turn)
    → 1 ≤ n
    → All Works schedule
    → Moves buffer_size n filled x input (record { input = x ∷ input; schedule = schedule })
unfolding round
round-Moves buffer_size n filled x input schedule h w =
    let took = read-Took n (record { input = x ∷ input; schedule = schedule }) h w in
    let same : suc (took.count - 1) ≡ took.count = omega (arith, took.least) in
    record {
      count = took.count - 1;
      after = took.after;
      most = omega (arith, took.most);
      works = took.works;
      result = rw (took.result) (
          ap
            (λ c.
              on_read buffer_size filled (take c (x ∷ input))
                (record { input = drop c (x ∷ input); schedule = took.after }))
            (sym same));
    }
