-- ===== src/Udp/Address/Layout.antt =====
-- The destination of src/udp.rs in memory, and what is sent to it.
use lidi.Prelude.{
  ℕ, ◌+◌, ◌*◌, ◌/◌, ◌%◌, ◌^◌, ◌<◌, ◌≡◌, refl, ap, sym, ◌∙◌, Option, List, [], ◌∷◌, ◌++◌, length,
  All, arith, length-append, replicate,
}
use lidi.Prelude.Bytes.{IsByte, to_le_bytes, to_le_bytes-from_le_bytes}
use lidi.Protocol.Crate.{Raptorq}
use lidi.Udp.{Socket}
use lidi.Udp.Kernel.{Kernel, Documented}
use lidi.Udp.Messages
use lidi.Udp.Messages.Refines.{send_all, sent_all, send_all-refines}
use lidi.Udp.Address.{little, SocketAddr, v4, v6, to_be, pointed, dest_len, new}

-- Four octets or sixteen, and integers that fit their types.
abbrev pub IsSocketAddr : SocketAddr → Type 0
IsSocketAddr (v4 octets port) = (length octets ≡ 4) × All IsByte octets × (port < 2 ^ 16)
IsSocketAddr (v6 octets port flowinfo scope_id) =
    (length octets ≡ 16)
    × All IsByte octets
    × (port < 2 ^ 16)
    × (flowinfo < 2 ^ 32)
    × (scope_id < 2 ^ 32)

-- The structure that the kernel expects: the family, and port and octets in network order.
abbrev pub expected : SocketAddr → List ℕ
expected (v4 octets port) = 2 ∷ 0 ∷ port / 256 ∷ port % 256 ∷ octets ++ replicate 8 0
expected (v6 octets port flowinfo scope_id) =
    10 ∷ 0 ∷ port / 256 ∷ port % 256 ∷ to_le_bytes 4 flowinfo ++ (octets ++ to_le_bytes 4 scope_id)

port_bytes :
    (port : ℕ) → port < 2 ^ 16 → to_le_bytes 2 (to_be little port) ≡ port / 256 ∷ port % 256 ∷ []
port_bytes port h = cc (high, low)
  where
    high : (port % 256 * 256 + port / 256) % 256 ≡ port / 256
    high = omega (arith, h)

    low : (port % 256 * 256 + port / 256) / 256 % 256 ≡ port % 256
    low = omega (arith, h)

pointed-expected : (dest : SocketAddr) → IsSocketAddr dest → pointed little dest ≡ expected dest
pointed-expected (v4 octets port) (len, bytes, small) =
    cc (port_bytes port small, to_le_bytes-from_le_bytes octets bytes, len)
pointed-expected (v6 octets port flowinfo scope_id) (len, bytes, small, _, _) =
    cc (port_bytes port small)

length-pointed :
    (dest : SocketAddr) → IsSocketAddr dest → length (pointed little dest) ≡ dest_len dest
length-pointed (v4 octets port) h = refl
length-pointed (v6 octets port flowinfo scope_id) h =
    omega (arith, length-append octets (to_le_bytes 4 scope_id), h.0)

-- On a little-endian host, with a kernel that does what its manual says, for an address whose parts
-- fit their types: the structures of `Send::new`, used again and again in a run of sends, give the
-- kernel exactly the datagrams that `Udp.send` says, each with the whole structure that it expects of
-- this address, with the same outcome, whatever the kernel takes, errors and panics included.
pub new-sends :
    (kernel : Kernel) (crate : Raptorq) (dest : SocketAddr) (batch_send : Option ℕ)
    (queue : List (List crate.Packet)) (s : Socket)
    → Documented kernel
    → IsSocketAddr dest
    → send_all kernel (expected dest) crate (new little dest batch_send) queue s
      ≡ sent_all crate batch_send queue s
unfolding new
new-sends kernel crate dest batch_send queue s documented h =
    let there = pointed-expected dest h in
    ap (λ p. send_all kernel p crate (new little dest batch_send) queue s) (sym there)
    ∙ ap
        (λ n.
          send_all kernel (pointed little dest) crate
            (Messages.new batch_send (pointed little dest) n) queue s)
        (sym (length-pointed dest h))
    ∙ send_all-refines kernel documented crate batch_send (pointed little dest) queue s
