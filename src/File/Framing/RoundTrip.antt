-- ===== src/File/Framing/RoundTrip.antt =====
-- Writing and reading with src/aux/file/protocol.rs.
use lidi.Prelude.{
  ℕ, ◌^◌, ◌<◌, ◌≡◌, refl, ap, ◌∙◌, Bool, true, List, [], ◌++◌, length, arith, All, append_assoc,
  gt→leb,
}
use lidi.Prelude.Bytes.{to_le_bytes, from_le_bytes, length-to_le_bytes, from_le_bytes-to_le_bytes}
use lidi.Prelude.Outcome.{ok}
use lidi.Stream.{Turn, Writer, write_all}
use lidi.Stream.Laws.{Works, read_exact-Filled}
use lidi.File.Framing.{Header, vec_limit, serialize_to, deserialize_from}

-- The bytes of a header.
abbrev pub encoded : Header → List ℕ
encoded header =
    to_le_bytes 8 (length header.file_name)
    ++ (header.file_name ++ (to_le_bytes 4 header.mode ++ to_le_bytes 8 header.file_length))

abbrev pub holding : List ℕ → Writer
holding bytes = record { written = bytes; faults = [] }

joined :
    (before a b c d : List ℕ) → (((before ++ a) ++ b) ++ c) ++ d ≡ before ++ (a ++ (b ++ (c ++ d)))
joined before a b c d =
    append_assoc ((before ++ a) ++ b) c d
    ∙ append_assoc (before ++ a) b (c ++ d)
    ∙ append_assoc before a (b ++ (c ++ d))

spread : (a b c d rest : List ℕ) → (a ++ (b ++ (c ++ d))) ++ rest ≡ a ++ (b ++ (c ++ (d ++ rest)))
spread a b c d rest =
    append_assoc a (b ++ (c ++ d)) rest
    ∙ ap (λ l. a ++ l) (append_assoc b (c ++ d) rest ∙ ap (λ l. b ++ l) (append_assoc c d rest))

pub serialize_to-encoded :
    (header : Header) (before : List ℕ)
    → serialize_to header (holding before) ≡ ok (holding (before ++ encoded header))
unfolding serialize_to write_all
serialize_to-encoded header before =
    ap (λ l. ok (holding l))
      (joined before (to_le_bytes 8 (length header.file_name)) header.file_name
        (to_le_bytes 4 header.mode) (to_le_bytes 8 header.file_length))

-- The four reads of the header, at whatever bytes have the right lengths.
deserialize_from-parts :
    (utf8 : List ℕ → Bool) (a b c d rest : List ℕ) (schedule : List Turn)
    → length a ≡ 8
    → length c ≡ 4
    → length d ≡ 8
    → from_le_bytes a ≡ length b
    → length b < vec_limit
    → utf8 b ≡ true
    → All Works schedule
    → (after : List Turn) × (deserialize_from utf8
          (record { input = a ++ (b ++ (c ++ (d ++ rest))); schedule = schedule })
        ≡ ok (
          record { file_name = b; mode = from_le_bytes c; file_length = from_le_bytes d },
          record { input = rest; schedule = after },
        ))
      × All Works after
unfolding deserialize_from
deserialize_from-parts utf8 a b c d rest schedule ha hc hd size small valid works =
    let f1 = read_exact-Filled a (b ++ (c ++ (d ++ rest))) schedule 8 ha works in
    let f2 = read_exact-Filled b (c ++ (d ++ rest)) f1.after (length b) refl f1.works in
    let f3 = read_exact-Filled c (d ++ rest) f2.after 4 hc f2.works in
    let f4 = read_exact-Filled d rest f3.after 8 hd f3.works in
    (
      f4.after,
      rw (f1.done) (
          rw (size) (
            rw (gt→leb vec_limit (length b) small)
              (rw (f2.done) (rw (valid) (rw (f3.done) (rw (f4.done))))))),
      f4.works,
    )

pub deserialize-encoded :
    (utf8 : List ℕ → Bool) (header : Header) (rest : List ℕ) (schedule : List Turn)
    → length header.file_name < vec_limit
    → utf8 header.file_name ≡ true
    → header.mode < 2 ^ 32
    → header.file_length < 2 ^ 64
    → All Works schedule
    → (after : List Turn) × (deserialize_from utf8
          (record { input = encoded header ++ rest; schedule = schedule })
        ≡ ok (header, record { input = rest; schedule = after }))
      × All Works after
deserialize-encoded utf8 header rest schedule hname valid hmode hlen works =
    let a = to_le_bytes 8 (length header.file_name) in
    let b = header.file_name in
    let c = to_le_bytes 4 header.mode in
    let d = to_le_bytes 8 header.file_length in
    let (after, done, works') =
      deserialize_from-parts utf8 a b c d rest schedule (length-to_le_bytes 8 (length b))
        (length-to_le_bytes 4 header.mode) (length-to_le_bytes 8 header.file_length)
        (from_le_bytes-to_le_bytes 8 (length b) (omega (arith, hname))) hname valid works in
    (
      after,
      ap (λ l. deserialize_from utf8 (record { input = l; schedule = schedule }))
            (spread a b c d rest)
          ∙ done
          ∙ ap
              (λ (p : ℕ × ℕ). ok (
                record { file_name = b; mode = p.0; file_length = p.1 },
                record { input = rest; schedule = after },
              ))
              (cc (
                from_le_bytes-to_le_bytes 4 header.mode hmode,
                from_le_bytes-to_le_bytes 8 header.file_length hlen,
              )),
      works',
    )

-- A header whose fields fit their types and whose name is valid is read back from what
-- `serialize_to` writes of it, up to the bytes behind it, whatever the sizes of the reads.
pub deserialize-serialize_to :
    (utf8 : List ℕ → Bool) (header : Header) (rest : List ℕ) (schedule : List Turn)
    → length header.file_name < vec_limit
    → utf8 header.file_name ≡ true
    → header.mode < 2 ^ 32
    → header.file_length < 2 ^ 64
    → All Works schedule
    → (w : Writer) × (after : List Turn) × (serialize_to header (holding []) ≡ ok w)
      × (deserialize_from utf8 (record { input = w.written ++ rest; schedule = schedule })
          ≡ ok (header, record { input = rest; schedule = after }))
      × All Works after
deserialize-serialize_to utf8 header rest schedule hname valid hmode hlen works =
    let (after, done, works') =
      deserialize-encoded utf8 header rest schedule hname valid hmode hlen works in
    (holding (encoded header), after, serialize_to-encoded header [], done, works')
