-- ===== src/Examples/Ends.antt =====
-- The theorems about programs for files and datagrams at concrete inputs.
use lidi.Prelude.{
  ℕ, ◌≡◌, refl, some, none, true, false, Bool, List, [], ◌∷◌, map, All, arith, String,
}
use lidi.Prelude.Outcome.{Outcome, ok}
use lidi.Stream.{IoError, some_bytes, Writer}
use lidi.Diode.{DiodeSend, tcp, unix, unix_listener}
use lidi.File.Framing.RoundTrip.{holding}
use lidi.File.Sessions.{Job}
use lidi.File.Sessions.Counts.{streams_of, admitted}
use lidi.File.Listen.{receive_clients}
use lidi.File.Listen
use lidi.Tunnel.Sessions
use lidi.Tunnel.Sessions.Arrives.{Client, stream_of, by_unix}
use lidi.Programs.{returned}
use lidi.Programs.DiodeSendFile
use lidi.Programs.DiodeReceiveFile
use lidi.Programs.DiodeSendUdp
use lidi.Programs.DiodeSendUdp.{u16_max}
use lidi.Programs.DiodeReceiveUdp
use lidi.Programs.Files.{Passing, sending, sent, client_of, stored, files_arrive}
use lidi.Programs.Datagrams.{Sends, datagrams_arrive}
use lidi.Examples.Framed.{adder, source, file, header, directory, finish_ext-lt}
use lidi.Examples.World.{world}

abbrev send_file : DiodeSendFile.Args
send_file = record {
  to_tcp = some "127.0.0.1:5001";
  to_unix = none;
  buffer_size = 3;
  hash = true;
  files = "ab" ∷ "ab" ∷ [];
}

abbrev receive_file : DiodeReceiveFile.Args
receive_file = record {
  from_tcp = none;
  from_unix = some "/run/lidi";
  buffer_size = 3;
  hash = true;
  max_files = 1;
  output_directory = "out";
}

abbrev file_host : Listen.Host String
file_host = record {
  is_dir = λ path. true;
  exists = λ path. false;
  bind_tcp = λ address. ok tt;
  bind_unix = λ path. ok tt;
  limit = 1;
}

abbrev job : DiodeSend String → String → Job
job diode path = record { connected = ok (holding []); source = source }

abbrev utf8 : List ℕ → Bool
utf8 name = true

abbrev passing : Passing adder (sending send_file) utf8
passing = record {
  file = record {
    job = job (tcp "127.0.0.1:5001") "ab";
    file = file;
    header = header;
    connected = refl;
    readable = record {
      is_file = refl;
      opened = refl;
      named = refl;
      described = refl;
      works = (tt, tt);
    };
  };
  directory = directory;
  schedule = some_bytes 7 ∷ [];
  len = refl;
  encodable = record { named = omega arith; valid = refl; mode = omega arith; len = omega arith };
  accepts = record {
    name = header.file_name;
    named = refl;
    absent = refl;
    created = refl;
    permitted = refl;
  };
  works = (tt, tt);
}

files_arrive_example :
    (DiodeSendFile.main adder world job send_file
      ≡ some (
        streams_of adder
            (sending send_file)
            (sent adder (sending send_file) utf8 (passing ∷ passing ∷ [])),
        returned,
      ))
    × (DiodeReceiveFile.main world file_host receive_file
        ≡ (unix_listener "/run/lidi" ∷ [], returned))
    × ((receive_clients adder
          (DiodeReceiveFile.config receive_file)
          utf8
          (map ok (map (client_of adder (sending send_file) utf8) (passing ∷ passing ∷ [])))).0
        ≡ map (stored adder (sending send_file) utf8) (admitted 1 (passing ∷ passing ∷ [])))
files_arrive_example =
    files_arrive adder utf8 world file_host job send_file receive_file (tcp "127.0.0.1:5001")
      (passing ∷ passing ∷ []) refl refl refl (omega arith) refl refl finish_ext-lt
      (record { directory = refl; absent = λ _. refl; tcp = λ _. refl; unix = λ _. refl })
      (omega arith)

abbrev send_udp : DiodeSendUdp.Args
send_udp = record { to_tcp = none; to_unix = some "/run/send"; from = "127.0.0.1:7000" }

abbrev receive_udp : DiodeReceiveUdp.Args
receive_udp = record {
  from_tcp = none;
  from_unix = some "/run/lidi";
  to_bind = "0.0.0.0:0";
  to = "127.0.0.1:7001";
}

abbrev talker : Client u16_max
talker = record {
  datagrams = (1 ∷ 2 ∷ []) ∷ [] ∷ (7 ∷ []) ∷ [];
  schedule = some_bytes 5 ∷ [];
  fit = (omega arith, (omega arith, (omega arith, tt)));
  works = (tt, tt);
}

abbrev connect : DiodeSend String → Outcome IoError Writer
connect diode = ok (holding [])

abbrev udp_host : Sessions.Host String
udp_host = record {
  exists = λ path. false;
  bind_unix = λ path. ok (map (λ (c : Client u16_max). ok (stream_of c)) (talker ∷ talker ∷ []));
  bind_tcp = λ address. ok [];
  bind_udp = λ address. ok (λ to sent datagram. ok tt);
}

datagrams_arrive_example :
    All (Sends world connect send_udp) (talker ∷ talker ∷ [])
    × (DiodeReceiveUdp.main world udp_host receive_udp
        ≡ some ((1 ∷ 2 ∷ []) ∷ [] ∷ (7 ∷ []) ∷ (1 ∷ 2 ∷ []) ∷ [] ∷ (7 ∷ []) ∷ [], none))
datagrams_arrive_example =
    datagrams_arrive world connect udp_host send_udp receive_udp (unix "/run/send")
      (talker ∷ talker ∷ []) (λ to sent datagram. ok tt) refl refl refl refl (λ sent datagram. refl)
      (by_unix "/run/lidi" refl refl refl)
