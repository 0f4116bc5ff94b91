-- ===== src/File/Sessions/Counts.antt =====
-- How many files the loops of src/aux/file/ move.
use lidi.Prelude.{
  ℕ, zero, suc, ◌+◌, ◌≤◌, ◌<◌, ◌≡◌, ◌≢◌, refl, ap, some, true, false, List, [], ◌∷◌, ◌++◌, map,
  take, length, arith, le→leb, gt→leb, ne→==,
}
use lidi.Prelude.Outcome.{Outcome, ok}
use lidi.Stream.{IoError, Reader, Writer}
use lidi.File.{Hasher, Config}
use lidi.File.Framing.{Header}
use lidi.File.Framing.RoundTrip.{holding}
use lidi.File.Send.Streams.{Readable, stream, send_file_aux-streams}
use lidi.File.Sessions.{Job, send_file, and_sent, send_files, Accepted, also, enough, accept_loop}

-- A file with its connection and its header.
pub record Sendable (hasher : Hasher) (config : Config) : Type 0 where
  pub job : Job
  pub file : Reader
  pub header : Header
  pub connected : job.connected ≡ ok (holding [])
  pub readable : Readable hasher config job.source file header

module _ (hasher : Hasher) (config : Config) where
  abbrev pub jobs_of : List (Sendable hasher config) → List Job
  jobs_of = map (λ (s : Sendable hasher config). s.job)

  abbrev pub streams_of : List (Sendable hasher config) → List Writer
  streams_of =
      map (λ (s : Sendable hasher config). holding (stream hasher config s.header s.file.input))

  pub send_file-streams :
      (s : Sendable hasher config)
      → 0 < config.buffer_size
      → send_file hasher config s.job
        ≡ some (ok (length s.file.input, holding (stream hasher config s.header s.file.input)))
  unfolding send_file
  send_file-streams s room =
      rw s.connected
        (send_file_aux-streams hasher config s.job.source s.file s.header room s.readable)

  -- Files that can be read, each over a connection of its own that takes all, with a buffer:
  -- `send_files` ends well and every connection holds the stream of its file.
  pub send_files-streams :
      (files : List (Sendable hasher config))
      → 0 < config.buffer_size
      → send_files hasher config (jobs_of files) ≡ some (streams_of files, ok tt)
  unfolding send_files
  send_files-streams [] room = refl
  send_files-streams (s ∷ files) room =
      rw (send_file-streams s room, send_files)
        (ap (and_sent hasher config (holding (stream hasher config s.header s.file.input)))
          (send_files-streams files room))

not_enough : (max_files count : ℕ) → count < max_files → enough max_files count ≡ false
not_enough max_files count h = rw (ne→== max_files 0 (omega arith), gt→leb max_files count h)

enough_now :
    (max_files count : ℕ) → max_files ≢ 0 → max_files ≤ count → enough max_files count ≡ true
enough_now max_files count ne h = rw (ne→== max_files 0 ne, le→leb max_files count h)

stop :
    {C : Type 0} (max_files count : ℕ) (connections : List (Outcome IoError C))
    → max_files ≢ 0
    → max_files ≤ count
    → accept_loop max_files count connections ≡ ([], some (ok tt))
unfolding accept_loop
stop max_files count [] ne h = rw (enough_now max_files count ne h)
stop max_files count (connection ∷ connections) ne h =
    rw (enough_now max_files count ne h, accept_loop)

accept_more :
    {C : Type 0} (max_files count k : ℕ) (clients : List C) (rest : List (Outcome IoError C))
    → max_files ≢ 0
    → count + k ≡ max_files
    → k ≤ length clients
    → accept_loop max_files count (map ok clients ++ rest) ≡ (take k clients, some (ok tt))
unfolding accept_loop
accept_more max_files count zero clients rest ne e h =
    stop max_files count (map ok clients ++ rest) ne (omega arith)
accept_more max_files count (suc k) [] rest ne e h = absurd (omega arith)
accept_more max_files count (suc k) (c ∷ clients) rest ne e h =
    rw (not_enough max_files count (omega arith), accept_loop)
      (ap (also c)
        (accept_more max_files (count + 1) k clients rest ne (omega arith) (omega arith)))

-- With a limit other than 0, once that many clients have connected, exactly the first so many have
-- been accepted and the loop has returned well, whatever comes behind them.
pub accept_loop-take :
    {C : Type 0} (max_files : ℕ) (clients : List C) (rest : List (Outcome IoError C))
    → max_files ≢ 0
    → max_files ≤ length clients
    → accept_loop max_files 0 (map ok clients ++ rest) ≡ (take max_files clients, some (ok tt))
accept_loop-take max_files clients rest ne h =
    accept_more max_files 0 max_files clients rest ne (omega arith) h

-- The clients that a limit admits; 0 is no limit.
abbrev pub admitted : {C : Type 0} → ℕ → List C → List C
admitted zero clients = clients
admitted (suc n) clients = take (suc n) clients

accept_all :
    {C : Type 0} (count : ℕ) (clients : List C) → (accept_loop 0 count (map ok clients)).0 ≡ clients
unfolding accept_loop
accept_all count [] = refl
accept_all count (c ∷ clients) = ap (λ cs. c ∷ cs) (accept_all (count + 1) clients)

accept_first :
    {C : Type 0} (max_files count k : ℕ) (clients : List C)
    → max_files ≢ 0
    → count + k ≡ max_files
    → (accept_loop max_files count (map ok clients)).0 ≡ take k clients
unfolding accept_loop
accept_first max_files count zero clients ne e =
    ap (λ (r : Accepted _). r.0) (stop max_files count (map ok clients) ne (omega arith))
accept_first max_files count (suc k) [] ne e = rw (not_enough max_files count (omega arith))
accept_first max_files count (suc k) (c ∷ clients) ne e =
    rw (not_enough max_files count (omega arith), accept_loop)
      (ap (λ cs. c ∷ cs) (accept_first max_files (count + 1) k clients ne (omega arith)))

pub accept_loop-admitted :
    {C : Type 0} (max_files : ℕ) (clients : List C)
    → (accept_loop max_files 0 (map ok clients)).0 ≡ admitted max_files clients
accept_loop-admitted zero clients = accept_all 0 clients
accept_loop-admitted (suc n) clients =
    accept_first (suc n) 0 (suc n) clients (omega arith) (omega arith)
