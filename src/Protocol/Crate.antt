-- ===== src/Protocol/Crate.antt =====
-- The interface of the `raptorq` crate that src/protocol.rs, src/udp.rs and src/receive/reblock.rs
-- call, and what the program relies on in it. Both are parameters of the development.
use lidi.Prelude.{ℕ, ◌+◌, ◌*◌, ◌≤◌, ◌<◌, ◌≡◌, Option, some, List, ◌++◌, length, All, take}

pub record Raptorq : Type 1 where
  -- `EncodingPacket`, `SourceBlockEncodingPlan`, `ObjectTransmissionInformation`
  pub Packet : Type 0
  pub Plan : Type 0
  pub Config : Type 0
  pub generate : ℕ → Plan
  pub with_defaults : ℕ → ℕ → Config
  pub symbol_size : Config → ℕ
  -- `SourceBlockEncoder::with_encoding_plan(id, config, data, plan)`, then the method
  pub source_packets : ℕ → Config → List ℕ → Plan → List Packet
  pub repair_packets : ℕ → Config → List ℕ → Plan → ℕ → ℕ → List Packet
  -- `SourceBlockDecoder::new(id, config, block_length)`, then `decode`
  pub decode : ℕ → Config → ℕ → List Packet → Option (List ℕ)
  pub serialize : Packet → List ℕ
  pub deserialize : List ℕ → Packet
  pub source_block_number : Packet → ℕ

-- The code is systematic: a block of `k` symbols has `k` source packets, from which (whatever
-- repair packets follow) it is decoded. Every packet carries its block's number, through its
-- serialised form too.
pub record Laws (crate : Raptorq) : Type 0 where
  pub deserialize-serialize : (p : crate.Packet) → crate.deserialize (crate.serialize p) ≡ p
  -- it is a `u8`
  pub number-lt : (p : crate.Packet) → crate.source_block_number p < 256
  pub number-source :
      (id k t : ℕ) (data' : List ℕ)
      → id < 256
      → length data' ≡ t * k
      → let config = crate.with_defaults (t * k) t in
        All
          (λ p. crate.source_block_number p ≡ id)
          (crate.source_packets id config data' (crate.generate k))
  pub number-repair :
      (id k t first n : ℕ) (data' : List ℕ)
      → id < 256
      → length data' ≡ t * k
      → let config = crate.with_defaults (t * k) t in
        All
          (λ p. crate.source_block_number p ≡ id)
          (crate.repair_packets id config data' (crate.generate k) first n)
  pub length-source :
      (id k t : ℕ) (data' : List ℕ)
      → id < 256
      → length data' ≡ t * k
      → let config = crate.with_defaults (t * k) t in
        length (crate.source_packets id config data' (crate.generate k)) ≡ k
  pub length-repair :
      (id k t first n : ℕ) (data' : List ℕ)
      → id < 256
      → length data' ≡ t * k
      → let config = crate.with_defaults (t * k) t in
        length (crate.repair_packets id config data' (crate.generate k) first n) ≡ n
  pub decode-source :
      (id k t first n m : ℕ) (data' : List ℕ)
      → id < 256
      → length data' ≡ t * k
      → let config = crate.with_defaults (t * k) t in
        let plan = crate.generate k in
        crate.decode id config (t * k) (
          crate.source_packets id config data' plan
          ++ take m (crate.repair_packets id config data' plan first n))
        ≡ some data'
  pub serialize-source :
      (id k t : ℕ) (data' : List ℕ)
      → id < 256
      → length data' ≡ t * k
      → let config = crate.with_defaults (t * k) t in
        All
          (λ p. length (crate.serialize p) ≤ 4 + t)
          (crate.source_packets id config data' (crate.generate k))
  pub serialize-repair :
      (id k t first n : ℕ) (data' : List ℕ)
      → id < 256
      → length data' ≡ t * k
      → let config = crate.with_defaults (t * k) t in
        All
          (λ p. length (crate.serialize p) ≤ 4 + t)
          (crate.repair_packets id config data' (crate.generate k) first n)
