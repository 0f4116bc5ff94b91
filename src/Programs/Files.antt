-- ===== src/Programs/Files.antt =====
-- Files from src/bin/diode-send-file.rs to src/bin/diode-receive-file.rs: what a connection of the
-- first holds is what a client of the second reads.
use lidi.Prelude.{
  ℕ, zero, suc, ◌≤◌, ◌<◌, ◌≡◌, refl, ap, sym, ◌∙◌, Option, some, Bool, true, List, [], ◌∷◌, map,
  length, map-take, All, append-nil, String,
}
use lidi.Prelude.Outcome.{Outcome, ok}
use lidi.Stream.{Turn, Reader, Writer}
use lidi.Stream.Laws.{Works}
use lidi.Diode.{DiodeSend}
use lidi.File
use lidi.File.{Hasher, Error}
use lidi.File.Framing.RoundTrip.{holding}
use lidi.File.Send.Streams.{stream}
use lidi.File.Receive.{Directory, receive_file}
use lidi.File.Receive.Rounds.{Fits}
use lidi.File.Receive.Delivers.{Accepts, Encodable, receive_file-delivers}
use lidi.File.Sessions.{Job}
use lidi.File.Sessions.Counts.{
  Sendable, jobs_of, streams_of, send_files-streams, admitted, accept_loop-admitted,
}
use lidi.File.Listen.{Host, receive_clients}
use lidi.File.Listen.Takes.{asked, Free, receive_files-listens}
use lidi.Programs.{World, endpoint, returned}
use lidi.Programs.DiodeSendFile
use lidi.Programs.DiodeReceiveFile

-- A file that can be sent, the directory as its receiver finds it, and how its reads are cut.
pub record Passing (hasher : Hasher) (config : File.Config) (utf8 : List ℕ → Bool) : Type 0 where
  pub file : Sendable hasher config
  pub directory : Directory
  pub schedule : List Turn
  pub len : file.header.file_length ≡ length file.file.input
  pub encodable : Encodable hasher config utf8 file.header
  pub accepts : Accepts hasher config directory file.header
  pub works : All Works schedule

module _ (hasher : Hasher) (config : File.Config) (utf8 : List ℕ → Bool) where
  abbrev pub sent : List (Passing hasher config utf8) → List (Sendable hasher config)
  sent = map (λ (p : Passing hasher config utf8). p.file)

  abbrev pub client_of : Passing hasher config utf8 → Directory × Reader
  client_of p = (
    p.directory,
    record { input = stream hasher config p.file.header p.file.file.input; schedule = p.schedule },
  )

  -- What the thread of a client returns: the bytes of the file are written.
  abbrev pub stored : Passing hasher config utf8 → Option (Outcome Error (ℕ × Writer))
  stored p = some (ok (length p.file.file.input, holding p.file.file.input))

  client-stored :
      (p : Passing hasher config utf8)
      → Fits hasher config
      → 0 < config.buffer_size
      → receive_file hasher config utf8 (client_of p).0 (client_of p).1 ≡ stored p
  client-stored p fits room =
      ap
        (λ l.
          receive_file hasher config utf8 p.directory (record { input = l; schedule = p.schedule }))
        (sym (append-nil (stream hasher config p.file.header p.file.file.input)))
      ∙ receive_file-delivers hasher config utf8 p.directory p.file.header p.file.file.input []
          p.schedule fits room p.len p.encodable p.accepts p.works

  clients-stored :
      (ps : List (Passing hasher config utf8))
      → Fits hasher config
      → 0 < config.buffer_size
      → map (λ (c : Directory × Reader). receive_file hasher config utf8 c.0 c.1) (map client_of ps)
        ≡ map stored ps
  clients-stored [] fits room = refl
  clients-stored (p ∷ ps) fits room = cc (client-stored p fits room, clients-stored ps fits room)

map-admitted :
    {A B : Type 0} (f : A → B) (n : ℕ) (xs : List A) → admitted n (map f xs) ≡ map f (admitted n xs)
map-admitted f zero xs = refl
map-admitted f (suc n) xs = map-take f (suc n) xs

abbrev pub sending : DiodeSendFile.Args → File.Config
sending args = record { buffer_size = args.buffer_size; hash = args.hash }

-- From end to end: with loggers, the same buffer size, which is not 0, and the same use of hashes at
-- both ends, files that can be read, each over a connection of its own that takes all, a hash of 16
-- bytes at most, and an output directory with listeners and threads: diode-send-file returns and
-- has written the stream of each file, in order; diode-receive-file runs exactly the listeners that
-- are asked for; and the threads of the clients that these streams reach, the first `max_files` of
-- them, or all if that is 0, write exactly the bytes of the files and return their numbers, however
-- the reads are cut, if the headers can be encoded and give the length of the file, and the directory
-- takes the files.
pub files_arrive :
    (hasher : Hasher) (utf8 : List ℕ → Bool) (world : World) (host : Host String)
    (job : DiodeSend String → String → Job) (send : DiodeSendFile.Args)
    (receive : DiodeReceiveFile.Args) (to : DiodeSend String)
    (files : List (Passing hasher (sending send) utf8))
    → world.has_logger ≡ true
    → endpoint send.to_tcp send.to_unix ≡ some to
    → map (job to) send.files
      ≡ jobs_of hasher (sending send) (sent hasher (sending send) utf8 files)
    → 0 < send.buffer_size
    → receive.buffer_size ≡ send.buffer_size
    → receive.hash ≡ send.hash
    → Fits hasher (sending send)
    → Free host receive.output_directory
    → length (asked receive.from_unix receive.from_tcp) ≤ host.limit
    → (DiodeSendFile.main hasher world job send
        ≡ some (streams_of hasher (sending send) (sent hasher (sending send) utf8 files), returned))
      × (DiodeReceiveFile.main world host receive
          ≡ (asked receive.from_unix receive.from_tcp, returned))
      × ((receive_clients hasher
            (DiodeReceiveFile.config receive)
            utf8
            (map ok (map (client_of hasher (sending send) utf8) files))).0
          ≡ map (stored hasher (sending send) utf8) (admitted receive.max_files files))
unfolding DiodeSendFile.main DiodeReceiveFile.main receive_clients
files_arrive hasher utf8 world host job send receive to files logged at jobs room b h fits free
      threads =
    (
      rw (logged, at, jobs)
          (ap (DiodeSendFile.ended) (
            send_files-streams hasher (sending send) (sent hasher (sending send) utf8 files) room)),
      rw logged (
          ap (DiodeReceiveFile.ended) (
            receive_files-listens host (DiodeReceiveFile.config receive) receive.output_directory
              free threads)),
      rw (b, h)
          (ap (map receives) (
              accept_loop-admitted receive.max_files
                (map (client_of hasher (sending send) utf8) files))
            ∙ ap (map receives)
                (map-admitted (client_of hasher (sending send) utf8) receive.max_files files)
            ∙ clients-stored hasher (sending send) utf8 (admitted receive.max_files files) fits
                room),
    )
  where
    receives : Directory × Reader → Option (Outcome Error (ℕ × Writer))
    receives c = receive_file hasher (sending send) utf8 c.0 c.1
