-- ===== src/Examples/Framed.antt =====
-- The theorems about src/aux/, src/udp.rs, src/send/server.rs and src/send/udp.rs at concrete inputs.
use lidi.Prelude.{
  ℕ, ◌+◌, ◌*◌, ◌%◌, ◌^◌, ◌<◌, ◌≡◌, refl, some, none, true, false, Option, List, [], ◌∷◌, ◌++◌,
  arith,
}
use lidi.Prelude.Outcome.{ok}
use lidi.Stream.{some_bytes, Reader}
use lidi.File.{Hasher, Config}
use lidi.File.Framing.{Header}
use lidi.File.Framing.RoundTrip.{holding}
use lidi.File.Send.{Source, send_file_aux}
use lidi.File.Send.Streams.{Readable, stream, send_file_aux-streams}
use lidi.File.Receive.{Directory, receive_file}
use lidi.File.Receive.Delivers.{Accepts, Encodable, receive_file-delivers}
use lidi.Udp.{send}
use lidi.Udp.Batches.{sent, send-wire}
use lidi.Send.Udp.{loop}
use lidi.Send.Udp.Stops.{loop-sent}
use lidi.Examples.Crate.{crate}

-- A hash that adds, and weighs whole vectors.
abbrev sum : ℕ → List ℕ → ℕ
sum h [] = h
sum h (x ∷ bytes) = sum (h + x) bytes

abbrev pub adder : Hasher
adder = record {
  H = ℕ;
  fresh = 1;
  write = sum;
  hash_vec = λ h bytes. sum (h * 2) bytes;
  finish_ext = λ h. h % 2 ^ 128;
}

abbrev config : Config
config = record { buffer_size = 3; hash = true }

abbrev pub header : Header
header = record { file_name = 97 ∷ 98 ∷ []; mode = 420; file_length = 5 }

abbrev pub five : List ℕ
five = 1 ∷ 2 ∷ 3 ∷ 4 ∷ 5 ∷ []

abbrev pub file : Reader
file = record { input = five; schedule = some_bytes 2 ∷ [] }

abbrev pub source : Source
source = record {
  is_file = true;
  opened = ok file;
  file_name = some (some (97 ∷ 98 ∷ []));
  metadata = ok (420, 5);
}

source-Readable : Readable adder config source file header
source-Readable = record {
  is_file = refl;
  opened = refl;
  named = refl;
  described = refl;
  works = (tt, tt);
}

send_file_aux-streams_example :
    send_file_aux adder config source (holding [])
    ≡ some (ok (5, holding (stream adder config header five)))
send_file_aux-streams_example =
    send_file_aux-streams adder config source file header (omega arith) source-Readable

abbrev pub directory : Directory
directory = record {
  base_name = λ path. some path;
  exists = λ name. false;
  create = λ name. ok (holding []);
  set_permissions = λ mode. ok tt;
}

directory-Accepts : Accepts adder config directory header
directory-Accepts = record {
  name = header.file_name;
  named = refl;
  absent = refl;
  created = refl;
  permitted = refl;
}

header-Encodable : Encodable adder config (λ _. true) header
header-Encodable = record {
  named = omega arith;
  valid = refl;
  mode = omega arith;
  len = omega arith;
}

pub finish_ext-lt : (h : ℕ) → h % 2 ^ 128 < 2 ^ 128
finish_ext-lt h = omega arith

receive_file-delivers_example :
    receive_file adder config
      (λ _. true)
      directory
      (record { input = stream adder config header five ++ []; schedule = some_bytes 9 ∷ [] })
    ≡ some (ok (5, holding five))
receive_file-delivers_example =
    receive_file-delivers adder config (λ _. true) directory header five [] (some_bytes 9 ∷ [])
      finish_ext-lt (omega arith) refl header-Encodable directory-Accepts (tt, tt)

send-wire_example :
    send crate (some 2) ((1, 2 ∷ []) ∷ (1, 3 ∷ []) ∷ (2, 4 ∷ []) ∷ []) (sent [])
    ≡ ok (sent ((1 ∷ 2 ∷ []) ∷ (1 ∷ 3 ∷ []) ∷ (2 ∷ 4 ∷ []) ∷ []))
send-wire_example =
    send-wire crate (some 2) ((1, 2 ∷ []) ∷ (1, 3 ∷ []) ∷ (2, 4 ∷ []) ∷ []) [] (λ e. cc)
      (omega arith, (omega arith, (omega arith, tt)))

-- Two encoding threads: the end mark of the first comes before the last packets.
abbrev messages : List (Option (List crate.Packet))
messages = some ((1, 2 ∷ []) ∷ []) ∷ none ∷ some ((2, 4 ∷ []) ∷ []) ∷ []

loop-sent_example :
    loop crate none 2 (messages ++ none ∷ some ((3, 5 ∷ []) ∷ []) ∷ []) (sent [])
    ≡ (sent ((1 ∷ 2 ∷ []) ∷ (2 ∷ 4 ∷ []) ∷ []), ok tt)
loop-sent_example =
    loop-sent crate none 2 messages (some ((3, 5 ∷ []) ∷ []) ∷ []) [] (λ e. cc) (omega arith)
      ((omega arith, tt), ((omega arith, tt), tt)) refl
