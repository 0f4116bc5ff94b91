-- ===== src/Udp/Address.antt =====
-- `Send::new` of src/udp.rs: the destination as the kernel reads it. `memory` is the layout of
-- `sockaddr_in` and `sockaddr_in6` in libc on a host of either byte order.
pub mod Layout
use mathlib.Core.List.{reverse}
use lidi.Prelude.{ℕ, ◌+◌, ◌*◌, ◌/◌, ◌%◌, Option, List, [], ◌∷◌, ◌++◌, replicate}
use lidi.Prelude.Bytes.{to_le_bytes, from_le_bytes}
use lidi.Udp.Messages
use lidi.Udp.Messages.{SendM}

pub data Endian : Type 0 where
  little big : Endian

-- `net::SocketAddr`: the octets and the port; flow and scope for IPv6
pub data SocketAddr : Type 0 where
  v4 : List ℕ → ℕ → SocketAddr
  v6 : List ℕ → ℕ → ℕ → ℕ → SocketAddr

-- `u16::to_be`
abbrev pub to_be : Endian → ℕ → ℕ
to_be big n = n
to_be little n = n % 256 * 256 + n / 256

pub record SockaddrIn : Type 0 where
  pub sin_family : ℕ
  pub sin_port : ℕ
  pub s_addr : ℕ

pub record SockaddrIn6 : Type 0 where
  pub sin6_family : ℕ
  pub sin6_port : ℕ
  pub sin6_flowinfo : ℕ
  pub s6_addr : List ℕ
  pub sin6_scope_id : ℕ

-- `libc::AF_INET` and `libc::AF_INET6`
abbrev pub af_inet : ℕ
af_inet = 2

abbrev pub af_inet6 : ℕ
af_inet6 = 10

abbrev pub sockaddr_in : Endian → List ℕ → ℕ → SockaddrIn
sockaddr_in e octets port = record {
  sin_family = af_inet;
  sin_port = to_be e port;
  s_addr = from_le_bytes octets;
}

abbrev pub sockaddr_in6 : Endian → List ℕ → ℕ → ℕ → ℕ → SockaddrIn6
sockaddr_in6 e octets port flowinfo scope_id = record {
  sin6_family = af_inet6;
  sin6_port = to_be e port;
  sin6_flowinfo = flowinfo;
  s6_addr = octets;
  sin6_scope_id = scope_id;
}

-- An integer in memory
abbrev pub to_ne_bytes : Endian → ℕ → ℕ → List ℕ
to_ne_bytes little w n = to_le_bytes w n
to_ne_bytes big w n = reverse (to_le_bytes w n)

abbrev pub memory : Endian → SockaddrIn → List ℕ
memory e a =
    to_ne_bytes e 2 a.sin_family
    ++ (to_ne_bytes e 2 a.sin_port ++ (to_ne_bytes e 4 a.s_addr ++ replicate 8 0))

abbrev pub memory6 : Endian → SockaddrIn6 → List ℕ
memory6 e a =
    to_ne_bytes e 2 a.sin6_family
    ++ (to_ne_bytes e 2 a.sin6_port
        ++ (to_ne_bytes e 4 a.sin6_flowinfo ++ (a.s6_addr ++ to_ne_bytes e 4 a.sin6_scope_id)))

-- What `dest` points at
abbrev pub pointed : Endian → SocketAddr → List ℕ
pointed e (v4 octets port) = memory e (sockaddr_in e octets port)
pointed e (v6 octets port flowinfo scope_id) =
    memory6 e (sockaddr_in6 e octets port flowinfo scope_id)

-- `mem::size_of`
abbrev pub dest_len : SocketAddr → ℕ
dest_len (v4 octets port) = 16
dest_len (v6 octets port flowinfo scope_id) = 28

-- `Send::new`
unfoldable pub new : Endian → SocketAddr → Option ℕ → SendM
new e dest batch_send = Messages.new batch_send (pointed e dest) (dest_len dest)
