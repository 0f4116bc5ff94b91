-- ===== src/Examples/Crate.antt =====
-- A small systematic code that satisfies the laws assumed of the RaptorQ crate, for the examples: a
-- packet is its block's number and a symbol, and the repair packets are blank.
use lidi.Prelude.{
  ℕ, zero, suc, ◌+◌, ◌*◌, ◌%◌, ◌≤◌, ◌<◌, ◌≡◌, refl, ap, ◌∙◌, Option, some, none, ltb, if◌then◌else◌,
  ge→ltb, List, [], ◌∷◌, ◌++◌, arith, map, length, take, length-take, drop, replicate, concat, All,
  length-replicate, length-drop, length-append, take-append-drop, take-append_length, append_assoc,
  sym,
}
use lidi.Protocol.Crate.{Raptorq, Laws}

abbrev Packet : Type 0
Packet = ℕ × List ℕ

abbrev symbol : Packet → List ℕ
symbol p = p.1

abbrev chunks : ℕ → ℕ → ℕ → List ℕ → List Packet
chunks id t zero bytes = []
chunks id t (suc k) bytes = (id, take t bytes) ∷ chunks id t k (drop t bytes)

abbrev recover : ℕ → List ℕ → Option (List ℕ)
recover len symbols = if ltb (length symbols) len then none else some (take len symbols)

abbrev parse : List ℕ → Packet
parse [] = (0, [])
parse (id ∷ bytes) = (id, bytes)

abbrev pub crate : Raptorq
crate = record {
  Packet = Packet;
  Plan = ℕ;
  Config = ℕ × ℕ;
  generate = λ k. k;
  with_defaults = λ len t. (len, t);
  symbol_size = λ c. c.1;
  source_packets = λ id c bytes k. chunks id c.1 k bytes;
  repair_packets = λ id c bytes k first n. replicate n (id, []);
  decode = λ id c len packets. recover len (concat (map symbol packets));
  serialize = λ p. p.0 ∷ p.1;
  deserialize = parse;
  source_block_number = λ p. p.0 % 256;
}

number_chunks :
    (id t k : ℕ) (bytes : List ℕ)
    → id < 256
    → All (λ (p : Packet). p.0 % 256 ≡ id) (chunks id t k bytes)
number_chunks id t zero bytes h = tt
number_chunks id t (suc k) bytes h = (omega arith, number_chunks id t k (drop t bytes) h)

number_blank : (id n : ℕ) → id < 256 → All (λ (p : Packet). p.0 % 256 ≡ id) (replicate n (id, []))
number_blank id zero h = tt
number_blank id (suc n) h = (omega arith, number_blank id n h)

length-chunks : (id t k : ℕ) (bytes : List ℕ) → length (chunks id t k bytes) ≡ k
length-chunks id t zero bytes = refl
length-chunks id t (suc k) bytes = ap suc (length-chunks id t k (drop t bytes))

-- The symbols of the chunks, and whatever follows, begin with the bytes.
take_chunks :
    (id t k : ℕ) (bytes : List ℕ) (more : List Packet)
    → length bytes ≡ t * k
    → concat (map symbol (chunks id t k bytes ++ more)) ≡ bytes ++ concat (map symbol more)
take_chunks id t zero [] more h = refl
take_chunks id t zero (x ∷ xs) more h = absurd (omega (arith, h))
take_chunks id t (suc k) bytes more h =
    ap (λ l. take t bytes ++ l)
      (take_chunks id t k (drop t bytes) more (length-drop t bytes ∙ grind (arith, h)))
    ∙ sym (append_assoc (take t bytes) (drop t bytes) (concat (map symbol more)))
    ∙ ap (λ l. l ++ concat (map symbol more)) (take-append-drop t bytes)

recover-append :
    (n : ℕ) (bytes more : List ℕ) → n ≡ length bytes → recover n (bytes ++ more) ≡ some bytes
recover-append n bytes more h =
    rw (ge→ltb (length (bytes ++ more)) n (omega (arith, length-append bytes more)))
      (ap some (take-append_length n bytes more h))

serialize-chunks :
    (id t k : ℕ) (bytes : List ℕ)
    → All (λ (p : Packet). length (p.0 ∷ p.1) ≤ 4 + t) (chunks id t k bytes)
serialize-chunks id t zero bytes = tt
serialize-chunks id t (suc k) bytes =
    (omega (arith, length-take t bytes), serialize-chunks id t k (drop t bytes))

serialize-blank :
    (id t n : ℕ) → All (λ (p : Packet). length (p.0 ∷ p.1) ≤ 4 + t) (replicate n (id, []))
serialize-blank id t zero = tt
serialize-blank id t (suc n) = (omega arith, serialize-blank id t n)

parse_pair : (p : Packet) → parse (p.0 ∷ p.1) ≡ p
parse_pair p = refl

pub laws : Laws crate
laws = record {
  deserialize-serialize = parse_pair;
  number-lt = λ p. omega arith;
  number-source = λ id k t bytes hid h. number_chunks id t k bytes hid;
  number-repair = λ id k t first n bytes hid h. number_blank id n hid;
  length-source = λ id k t bytes hid h. length-chunks id t k bytes;
  length-repair = λ id k t first n bytes hid h. length-replicate n (id, []);
  decode-source = λ id k t first n m bytes hid h.
      ap (recover (t * k)) (take_chunks id t k bytes (take m (replicate n (id, []))) h)
      ∙ recover-append (t * k) bytes _ (sym h);
  serialize-source = λ id k t bytes hid h. serialize-chunks id t k bytes;
  serialize-repair = λ id k t first n bytes hid h. serialize-blank id t n;
}
