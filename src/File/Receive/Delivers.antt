-- ===== src/File/Receive/Delivers.antt =====
-- What src/aux/file/receive.rs makes of the stream of src/aux/file/send.rs.
use lidi.Prelude.{
  ℕ, zero, suc, ◌+◌, ◌-◌, ◌^◌, ◌<◌, ◌≡◌, ap, sym, ◌∙◌, Option, some, Bool, true, false, List, [],
  ◌∷◌, ◌++◌, length, take, drop, arith, All, append_assoc, append-nil, length-append, length-take,
  length-drop,
}
use native.Mathlib.Decide.{dec_lt}
use lidi.Prelude.Outcome.{ok}
use lidi.Stream.{Turn, Reader}
use lidi.Stream.Laws.{Works}
use lidi.File.{Hasher, Config}
use lidi.File.Framing.{Header, vec_limit}
use lidi.File.Framing.RoundTrip.{encoded, holding, deserialize-encoded}
use lidi.File.Chunks.{new_hasher, hash_vec}
use lidi.File.Chunks.Digest.{digest}
use lidi.File.Send.Streams.{stream, rejoined, fills, digest-kept, digest-moved}
use lidi.File.Receive.{Directory, room, loop, before_loop, then_loop, receive_file}
use lidi.File.Receive.Rounds.{
  round-empty, on_read-again, on_read-full, finish-digest, loop-again, loop-full, loop-over,
  room-none, takes, footer_of, Fits, behind,
}

module _ (hasher : Hasher) (config : Config) where
  loop-delivers :
      (fits : Fits hasher config) (file_length fuel : ℕ) (filled bytes before rest : List ℕ)
      (schedule : List Turn) (h : Option hasher.H)
      → All Works schedule
      → length bytes < fuel
      → length filled < config.buffer_size
      → loop hasher config file_length fuel
          (length bytes)
          filled
          (record {
            input =
                bytes
                ++ behind hasher config rest (digest hasher config.buffer_size h filled bytes);
            schedule = schedule;
          })
          h
          (holding before)
        ≡ some (ok (file_length, holding (before ++ (filled ++ bytes))))
  loop-delivers fits file_length zero filled bytes before rest schedule h w hf less =
      absurd (omega arith)
  loop-delivers fits file_length (suc fuel) filled [] before rest schedule h w hf less =
      let tail = behind hasher config rest (digest hasher config.buffer_size h filled []) in
      let (after, e, w') = round-empty config.buffer_size filled tail schedule w in
      loop-over hasher config file_length fuel 0 filled _ _ h (holding before)
        (rw (room-none hasher config filled less) e)
      ∙ ap some (finish-digest hasher config fits file_length filled before rest after h w')
      ∙ ap (λ l. some (ok (file_length, holding (before ++ l)))) (sym (append-nil filled))
  loop-delivers fits file_length (suc fuel) filled (x ∷ xs) before rest schedule h w hf less =
      let tail = behind hasher config rest (digest hasher config.buffer_size h filled (x ∷ xs)) in
      let client : Reader = record { input = x ∷ xs ++ tail; schedule = schedule } in
      let next : ℕ → List Turn → Reader =
        λ c after. record { input = drop c xs ++ tail; schedule = after } in
      let t = takes hasher config filled x xs tail schedule less w in
      let bytes = x ∷ take t.count xs in
      let left = drop t.count xs in
      let remain : length (x ∷ xs) - length bytes ≡ length left =
        omega (arith, length-take t.count xs, length-drop t.count xs, t.within) in
      elim (dec_lt (length filled + length bytes) config.buffer_size) [
        | yes short ↦
            loop-again hasher config file_length fuel (length (x ∷ xs)) (length bytes) filled
              (filled ++ bytes) client (next t.count t.after) h (holding before)
              (t.result
                ∙ on_read-again hasher config filled x (take t.count xs) (next t.count t.after)
                    short)
            ∙ ap
                (λ (p : ℕ × Option hasher.H).
                  loop hasher config file_length fuel p.0 (filled ++ bytes)
                    (record { input = left ++ behind hasher config rest p.1; schedule = t.after }) h
                    (holding before))
                (cc (remain, digest-kept hasher config filled x t.count xs h short))
            ∙ loop-delivers fits file_length fuel (filled ++ bytes) left before rest t.after h
                t.works (omega (arith, length-drop t.count xs))
                (omega (arith, length-append filled bytes))
            ∙ ap (λ l. some (ok (file_length, holding (before ++ l))))
                (rejoined hasher config filled x t.count xs)
        | no enough ↦
            let e = fills hasher config filled x t.count xs t.most enough in
            loop-full hasher config file_length fuel (length (x ∷ xs)) (length bytes) filled
              (filled ++ bytes) before client (next t.count t.after) h
              (t.result
                ∙ on_read-full hasher config filled x (take t.count xs) (next t.count t.after)
                    enough)
            ∙ ap
                (λ (p : ℕ × Option hasher.H).
                  loop hasher config file_length fuel p.0 []
                    (record { input = left ++ behind hasher config rest p.1; schedule = t.after })
                    (hash_vec hasher h (filled ++ bytes)) (holding (before ++ (filled ++ bytes))))
                (cc (remain, digest-moved hasher config filled x t.count xs h e))
            ∙ loop-delivers fits file_length fuel [] left (before ++ (filled ++ bytes)) rest t.after
                (hash_vec hasher h (filled ++ bytes)) t.works
                (omega (arith, length-drop t.count xs)) (omega arith)
            ∙ ap (λ l. some (ok (file_length, holding l)))
                (append_assoc before (filled ++ bytes) left
                  ∙ ap (λ l. before ++ l) (rejoined hasher config filled x t.count xs))
      ]

  -- A directory that takes the file under the name that the path ends in.
  pub record Accepts (directory : Directory) (header : Header) : Type 0 where
    pub name : List ℕ
    pub named : directory.base_name header.file_name ≡ some name
    pub absent : directory.exists name ≡ false
    pub created : directory.create name ≡ ok (holding [])
    pub permitted : directory.set_permissions header.mode ≡ ok tt

  -- A header that its types can hold.
  pub record Encodable (utf8 : List ℕ → Bool) (header : Header) : Type 0 where
    pub named : length header.file_name < vec_limit
    pub valid : utf8 header.file_name ≡ true
    pub mode : header.mode < 2 ^ 32
    pub len : header.file_length < 2 ^ 64

  opened :
      (utf8 : List ℕ → Bool) (directory : Directory) (header : Header) (rest : List ℕ)
      (schedule : List Turn)
      → Encodable utf8 header
      → Accepts directory header
      → All Works schedule
      → (after : List Turn) × (before_loop hasher config utf8 directory
            (record { input = encoded header ++ rest; schedule = schedule })
          ≡ ok (header, record { input = rest; schedule = after }, holding []))
        × All Works after
  opened utf8 directory header rest schedule e a w =
      let (after, done, w') =
        deserialize-encoded utf8 header rest schedule e.named e.valid e.mode e.len w in
      (after, rw (done) (rw (a.named) (rw (a.absent) (rw (a.created) (rw (a.permitted))))), w')

  -- The stream of `send_file_aux`, whatever follows it, with the same configuration at both ends: if
  -- the header can be encoded and gives the length of the file, the directory takes the file and
  -- there is a buffer, then `receive_file` returns the number of bytes, and has written exactly the
  -- bytes of the file, however the reads cut the stream.
  pub receive_file-delivers :
      (utf8 : List ℕ → Bool) (directory : Directory) (header : Header) (bytes rest : List ℕ)
      (schedule : List Turn)
      → Fits hasher config
      → 0 < config.buffer_size
      → header.file_length ≡ length bytes
      → Encodable utf8 header
      → Accepts directory header
      → All Works schedule
      → receive_file hasher config utf8 directory
          (record { input = stream hasher config header bytes ++ rest; schedule = schedule })
        ≡ some (ok (length bytes, holding bytes))
  unfolding receive_file
  receive_file-delivers utf8 directory header bytes rest schedule fits room len e a w =
      let d = digest hasher config.buffer_size (new_hasher hasher config.hash) [] bytes in
      let (after, done, w') =
        opened utf8 directory header (bytes ++ behind hasher config rest d) schedule e a w in
      ap
        (λ l.
          then_loop hasher config
            (before_loop hasher config utf8 directory (record { input = l; schedule = schedule })))
        (append_assoc (encoded header ++ bytes) (footer_of hasher config d) rest
          ∙ append_assoc (encoded header) bytes (behind hasher config rest d))
      ∙ ap (then_loop hasher config) done
      ∙ ap
          (λ n.
            loop hasher config header.file_length
              (suc (length (bytes ++ behind hasher config rest d))) n []
              (record { input = bytes ++ behind hasher config rest d; schedule = after })
              (new_hasher hasher config.hash) (holding []))
          len
      ∙ loop-delivers fits header.file_length (suc (length (bytes ++ behind hasher config rest d)))
          [] bytes [] rest after (new_hasher hasher config.hash) w'
          (omega (arith, length-append bytes (behind hasher config rest d))) room
      ∙ ap (λ n. some (ok (n, holding bytes))) len
