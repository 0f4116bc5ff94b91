-- ===== src/File/Listen/Takes.antt =====
-- Where `receive_files` of src/aux/file/receive.rs listens, and which clients it takes.
use lidi.Prelude.{
  ℕ, zero, suc, ◌≤◌, ◌≡◌, refl, Option, none, some, true, false, List, [], ◌∷◌, length, arith,
  String,
}
use lidi.Prelude.Outcome.{ok}
use lidi.Diode.{DiodeReceive, Listener, tcp_listener, unix_listener}
use lidi.File.Listen.{Config, Host, receive_files}

-- The listeners that are asked for.
abbrev pub asked : {Addr : Type 0} → Option String → Option Addr → List (Listener Addr)
asked none none = []
asked none (some address) = tcp_listener address ∷ []
asked (some path) none = unix_listener path ∷ []
asked (some path) (some address) = unix_listener path ∷ tcp_listener address ∷ []

-- A directory, and nothing in the way of the listeners.
pub record Free {Addr : Type 0} (host : Host Addr) (output_dir : String) : Type 0 where
  pub directory : host.is_dir output_dir ≡ true
  pub absent : (path : String) → host.exists path ≡ false
  pub tcp : (address : Addr) → host.bind_tcp address ≡ ok tt
  pub unix : (path : String) → host.bind_unix path ≡ ok tt

listens_by_case :
    {Addr : Type 0} (host : Host Addr) (config : Config (DiodeReceive Addr)) (output_dir : String)
    (from_unix : Option String) (from_tcp : Option Addr) (limit : ℕ)
    → Free host output_dir
    → config.diode.from_unix ≡ from_unix
    → config.diode.from_tcp ≡ from_tcp
    → host.limit ≡ limit
    → length (asked from_unix from_tcp) ≤ limit
    → receive_files host config output_dir ≡ (asked from_unix from_tcp, ok tt)
unfolding receive_files
listens_by_case host config dir none none limit free e e' el room = rw (free.directory, e, e')
listens_by_case host config dir none (some a) zero free e e' el room = absurd (omega arith)
listens_by_case host config dir none (some a) (suc n) free e e' el room =
    rw (free.directory, e, e', el, free.tcp a)
listens_by_case host config dir (some p) none zero free e e' el room = absurd (omega arith)
listens_by_case host config dir (some p) none (suc n) free e e' el room =
    rw (free.directory, e, e', el, free.absent p, free.unix p)
listens_by_case host config dir (some p) (some a) zero free e e' el room = absurd (omega arith)
listens_by_case host config dir (some p) (some a) (suc zero) free e e' el room =
    absurd (omega arith)
listens_by_case host config dir (some p) (some a) (suc (suc n)) free e e' el room =
    rw (free.directory, e, e', el, free.absent p, free.unix p, free.tcp a)

-- With a directory, threads and nothing in the way, exactly the listeners that are asked for run.
pub receive_files-listens :
    {Addr : Type 0} (host : Host Addr) (config : Config (DiodeReceive Addr)) (output_dir : String)
    → Free host output_dir
    → length (asked config.diode.from_unix config.diode.from_tcp) ≤ host.limit
    → receive_files host config output_dir
      ≡ (asked config.diode.from_unix config.diode.from_tcp, ok tt)
receive_files-listens host config output_dir free room =
    listens_by_case host config output_dir config.diode.from_unix config.diode.from_tcp host.limit
      free refl refl refl room
