-- ===== src/Tunnel.antt =====
-- src/aux/udp/: datagrams through the diode. `send_udp_aux` frames what its socket receives, and
-- `receive_udp` sends on what it reads of the frames. The socket of the first is the list of the
-- datagrams that come, which `recv_from` cuts to the buffer; the list's end is an error of the
-- socket. The socket of the second records what is sent, and a parameter says what its next `send_to`
-- returns. A `usize` has eight bytes.
pub mod RoundTrip
pub mod Sessions
use lidi.Prelude.{
  ℕ, zero, suc, Option, none, some, List, [], ◌∷◌, ◌++◌, take, length, leb, if◌then◌else◌, String,
}
use lidi.Prelude.Bytes.{to_le_bytes, from_le_bytes}
use lidi.Prelude.Outcome.{Outcome, ok, err, panic, ◌>>=◌, map_err}
use lidi.Stream.{IoError, failed, Reader, Writer, write_all, read_exact}

-- `udp::Error`
pub data Error : Type 0 where
  io diode : IoError → Error
  other : String → Error

-- `Header`, by its one field
unfoldable pub serialize_to : ℕ → Writer → Outcome Error Writer
serialize_to size w = map_err diode (write_all w (to_le_bytes 8 size))

unfoldable pub deserialize_from : Reader → Outcome Error (ℕ × Reader)
deserialize_from r = do (size, r) ← map_err diode (read_exact r 8); ok (from_le_bytes size, r)

-- `send_udp_aux`: what it has written, and how it ended
pub send_udp_aux : ℕ → List (List ℕ) → Writer → Writer × Outcome Error Unit
send_udp_aux buffer_size [] w = (w, err (io failed))
send_udp_aux buffer_size (datagram ∷ datagrams) w =
    let received = take buffer_size datagram in
    elim (serialize_to (length received) w) [
      | ok w' ↦ elim (write_all w' received) [
        | ok w'' ↦ send_udp_aux buffer_size datagrams w''
        | err e ↦ (w', err (io e))
        | panic ↦ (w', panic)
      ]
      | err e ↦ (w, err e)
      | panic ↦ (w, panic)
    ]

-- One round of `receive_udp`, up to `send_to`: `buffer[0..size]` panics beyond the buffer.
unfoldable pub receive_one : ℕ → Reader → Outcome Error (List ℕ × Reader)
receive_one buffer_size r = do
  (size, r) ← deserialize_from r
  if leb size buffer_size then map_err io (read_exact r size) else panic

-- `send_to` of the socket, after the datagrams that it has sent, on the next one
abbrev pub SendTo : Type 0
SendTo = List (List ℕ) → List ℕ → Outcome IoError Unit

-- `receive_udp`: what it has sent, and how it ended; `none` means that the fuel ran out. A round takes
-- a header, so one round more than bytes is enough.
pub receive_loop :
    SendTo → ℕ → ℕ → Reader → List (List ℕ) → Option (List (List ℕ) × Outcome Error Unit)
receive_loop send_to zero buffer_size r sent = none
receive_loop send_to (suc fuel) buffer_size r sent = elim (receive_one buffer_size r) [
  | ok out ↦ elim (send_to sent out.0) [
    | ok _ ↦ receive_loop send_to fuel buffer_size out.1 (sent ++ out.0 ∷ [])
    | err e ↦ some (sent, err (io e))
    | panic ↦ some (sent, panic)
  ]
  | err e ↦ some (sent, err e)
  | panic ↦ some (sent, panic)
]

unfoldable pub receive_udp : SendTo → ℕ → Reader → Option (List (List ℕ) × Outcome Error Unit)
unfolding receive_loop
receive_udp send_to buffer_size r = receive_loop send_to (suc (length r.input)) buffer_size r []
