-- ===== src/Protocol/RaptorQ/Coding.antt =====
-- `encode` and `decode` of src/protocol.rs, over the laws of the RaptorQ crate.
use native.Mathlib.Decide.{dec_lt}
use lidi.Prelude.{
  ℕ, ◌+◌, ◌-◌, ◌*◌, ◌^◌, ◌≤◌, ◌<◌, ◌≡◌, ◌∙◌, some, List, ◌++◌, arith, length, take, All, lt→ltb,
  ge→ltb, take-append_ge, take_all, length-append, append-nil, All-append,
}
use lidi.Protocol.Crate.{Raptorq, Laws}
use lidi.Protocol.RaptorQ.{RaptorQ, config, nb_packets, encode, decode}

-- What `RaptorQ::new` guarantees and the coding relies on.
pub record IsCodable (q : RaptorQ) : Type 0 where
  pub symbols : q.symbol_count < 2 ^ 16
  pub product : q.transfer_length ≡ q.max_packet_size * q.symbol_count
  pub few : q.nb_repair_packets < 2 ^ 16

module _ (crate : Raptorq) (id k t : ℕ) (bytes : List ℕ) where
  abbrev source : List crate.Packet
  source = crate.source_packets id (crate.with_defaults (t * k) t) bytes (crate.generate k)

  abbrev repair : ℕ → ℕ → List crate.Packet
  repair first n =
      crate.repair_packets id (crate.with_defaults (t * k) t) bytes (crate.generate k) first n

module _ (crate : Raptorq) (laws : Laws crate) (id k t : ℕ) (bytes : List ℕ) where
  decode_prefix :
      (first n m : ℕ)
      → id < 256
      → length bytes ≡ t * k
      → k ≤ m
      → crate.decode id
          (crate.with_defaults (t * k) t)
          (t * k)
          (take m (source crate id k t bytes ++ repair crate id k t bytes first n))
        ≡ some bytes
  decode_prefix first n m hid hlen hm =
      let src : List crate.Packet = source crate id k t bytes in
      let whole : length src ≤ m = omega (arith, laws.length-source id k t bytes hid hlen) in
      rw (take-append_ge m src (repair crate id k t bytes first n) whole)
        (laws.decode-source id k t first n (m - length src) bytes hid hlen)

  decode_sources :
      (m : ℕ)
      → id < 256
      → length bytes ≡ t * k
      → k ≤ m
      → crate.decode id (crate.with_defaults (t * k) t) (t * k) (take m (source crate id k t bytes))
        ≡ some bytes
  decode_sources m hid hlen hm =
      let src : List crate.Packet = source crate id k t bytes in
      rw
        (take_all m src (omega (arith, laws.length-source id k t bytes hid hlen)), ← append-nil src)
        (laws.decode-source id k t 0 0 0 bytes hid hlen)

-- The number of the first repair packet.
abbrev first : (crate : Raptorq) → RaptorQ → ℕ
first crate q = crate.symbol_size (config crate q)

module _ (crate : Raptorq) (laws : Laws crate) (q : RaptorQ) (codable : IsCodable q) where
  module _ (id : ℕ) (bytes : List ℕ) (hid : id < 256)
      (fits : length bytes ≡ q.transfer_length) where
    full : length bytes ≡ q.max_packet_size * q.symbol_count
    full = fits ∙ codable.product

    encode_repaired :
        0 < q.nb_repair_packets
        → encode crate q id bytes
          ≡ source crate id q.symbol_count q.max_packet_size bytes
            ++ repair crate id q.symbol_count q.max_packet_size bytes
                (first crate q)
                q.nb_repair_packets
    unfolding encode
    encode_repaired h = rw (lt→ltb 0 q.nb_repair_packets h) (rw codable.product)

    encode_plain :
        q.nb_repair_packets ≡ 0
        → encode crate q id bytes ≡ source crate id q.symbol_count q.max_packet_size bytes
    unfolding encode
    encode_plain h = rw (ge→ltb 0 q.nb_repair_packets (omega arith)) (rw codable.product)

    -- A block is coded into `nb_packets` packets.
    pub length-encode : length (encode crate q id bytes) ≡ nb_packets q
    length-encode = elim (dec_lt 0 q.nb_repair_packets) [
      | yes h ↦ rw (encode_repaired h) (
          omega (
            arith,
            length-append (source crate id q.symbol_count q.max_packet_size bytes) (
                repair crate id q.symbol_count q.max_packet_size bytes (first crate q)
                  q.nb_repair_packets),
            laws.length-source id q.symbol_count q.max_packet_size bytes hid full,
            laws.length-repair id q.symbol_count q.max_packet_size (first crate q)
                q.nb_repair_packets bytes hid full,
            codable.symbols,
            codable.few,
          ))
      | no h ↦ rw (encode_plain (omega arith)) (
          omega (
            arith,
            laws.length-source id q.symbol_count q.max_packet_size bytes hid full,
            codable.symbols,
          ))
    ]

    -- Every packet of a block carries the block's number.
    pub number-encode : All (λ p. crate.source_block_number p ≡ id) (encode crate q id bytes)
    number-encode = elim (dec_lt 0 q.nb_repair_packets) [
      | yes h ↦ rw (encode_repaired h) (
          All-append _ _ _ (laws.number-source id q.symbol_count q.max_packet_size bytes hid full) (
            laws.number-repair id q.symbol_count q.max_packet_size (first crate q)
              q.nb_repair_packets bytes hid full))
      | no h ↦
          rw (encode_plain (omega arith))
            (laws.number-source id q.symbol_count q.max_packet_size bytes hid full)
    ]

    -- A serialised packet is a payload id of four bytes and a symbol.
    pub serialize-encode :
        All (λ p. length (crate.serialize p) ≤ 4 + q.max_packet_size) (encode crate q id bytes)
    serialize-encode = elim (dec_lt 0 q.nb_repair_packets) [
      | yes h ↦ rw (encode_repaired h) (
          All-append _ _ _
            (laws.serialize-source id q.symbol_count q.max_packet_size bytes hid full)
            (laws.serialize-repair id q.symbol_count q.max_packet_size (first crate q)
              q.nb_repair_packets bytes hid full))
      | no h ↦
          rw (encode_plain (omega arith))
            (laws.serialize-source id q.symbol_count q.max_packet_size bytes hid full)
    ]

    -- Any prefix of a block's packets that holds all source packets is decoded to the block.
    pub decode-take-encode :
        (n : ℕ)
        → q.symbol_count ≤ n
        → decode crate q id (take n (encode crate q id bytes)) ≡ some bytes
    unfolding decode
    decode-take-encode n h = elim (dec_lt 0 q.nb_repair_packets) [
      | yes p ↦
          rw (encode_repaired p, codable.product)
            (decode_prefix crate laws id q.symbol_count q.max_packet_size bytes _ _ n hid full h)
      | no p ↦
          rw (encode_plain (omega arith), codable.product)
            (decode_sources crate laws id q.symbol_count q.max_packet_size bytes n hid full h)
    ]
