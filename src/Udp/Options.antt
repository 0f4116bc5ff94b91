-- ===== src/Udp/Options.antt =====
-- src/sock_utils.rs: the sizes of a socket's buffers. `setsockopt` says whether the call took the size,
-- the low 32 bits of an `i32`; `getsockopt` gives the size, if the call succeeds.
use lidi.Prelude.{ℕ, Option, none, some, Bool, if◌then◌else◌}
use lidi.Prelude.Outcome.{Outcome, ok, err}
use lidi.Udp.{Error, other}

pub data OptionName : Type 0 where
  so_sndbuf so_rcvbuf : OptionName

pub record Options : Type 0 where
  pub setsockopt : OptionName → ℕ → Bool
  pub getsockopt : OptionName → Option ℕ

abbrev setsockopt_buffer_size : Options → ℕ → OptionName → Outcome Error Unit
setsockopt_buffer_size o size option_name =
    if o.setsockopt option_name size then ok tt else err (other "libc::setsockopt")

abbrev size_of : Option ℕ → Outcome Error ℕ
size_of none = err (other "libc::getsockopt")
size_of (some sz) = ok sz

abbrev getsockopt_buffer_size : Options → OptionName → Outcome Error ℕ
getsockopt_buffer_size o option_name = size_of (o.getsockopt option_name)

abbrev pub set_socket_send_buffer_size : Options → ℕ → Outcome Error Unit
set_socket_send_buffer_size o size = setsockopt_buffer_size o size so_sndbuf

abbrev pub set_socket_recv_buffer_size : Options → ℕ → Outcome Error Unit
set_socket_recv_buffer_size o size = setsockopt_buffer_size o size so_rcvbuf

abbrev pub get_socket_send_buffer_size : Options → Outcome Error ℕ
get_socket_send_buffer_size o = getsockopt_buffer_size o so_sndbuf

abbrev pub get_socket_recv_buffer_size : Options → Outcome Error ℕ
get_socket_recv_buffer_size o = getsockopt_buffer_size o so_rcvbuf

-- A socket that is set up: binding it, making it blocking, and its options.
pub record Setup : Type 0 where
  pub bind : Outcome Error Unit
  pub set_nonblocking : Outcome Error Unit
  pub options : Options
