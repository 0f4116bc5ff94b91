-- ===== src/Receive/Client.antt =====
-- src/receive/client.rs: the worker that writes a client's blocks to its stream. What it receives is
-- a list; at its end the worker waits. The buffered writer is the writer of `Stream`: what it has
-- been given. The hash is only logged.
pub mod Delivers
pub mod Breaks
use lidi.Prelude.{
  ℕ, Option, none, some, Bool, true, false, List, [], ◌∷◌, is_empty, if◌then◌else◌, String,
}
use lidi.Prelude.Outcome.{Outcome, ok, err, panic, ◌>>=◌, map_err}
use lidi.Protocol
use lidi.Protocol.Block.{BlockType, abort, end, Block, block_type, payload}
use lidi.Stream
use lidi.Stream.{IoError, Writer, write_all}

-- The cases of `receive::Error` that the worker can return.
pub data Error : Type 0 where
  io : IoError → Error
  receive receive_timeout : Error
  protocol : Protocol.Error → Error
  other : String → Error

-- What `recv` or `recv_timeout` returns.
pub data Message : Type 0 where
  block : Block → Message
  disconnected timeout : Message

-- How the worker ends: `client_end` is called with this flag; or it is not called; or it waits.
pub data End : Type 0 where
  client_end : Bool → End
  failed : Error → End
  panicked waiting : End

abbrev flushed : Writer → Outcome Error Writer
flushed w = map_err io (Stream.flush w)

-- `into_inner` writes out the buffer.
abbrev into_inner : Writer → Outcome Error Writer
into_inner w = map_err (λ e. other "failed to retrieve client inner") (Stream.flush w)

module _ (flush : Bool) where
  abbrev write_payload : Writer → List ℕ → Outcome Error Writer
  write_payload w bytes = do w ← map_err io (write_all w bytes); if flush then flushed w else ok w

  -- The last `match`: the writer, and the flag if the transfer is over.
  abbrev finish : BlockType → Writer → Outcome Error (Writer × Option Bool)
  finish abort w = do w ← into_inner w; ok (w, some false)
  finish end w = do w ← flushed w; w ← into_inner w; ok (w, some true)
  finish _ w = ok (w, none)

  unfoldable pub deliver : Writer → Block → Outcome Error (Writer × Option Bool)
  deliver w b = do
    kind ← map_err protocol (block_type b)
    bytes ← map_err protocol (payload b)
    w ← if is_empty bytes then ok w else write_payload w bytes
    finish kind w

  unfoldable pub run : Writer → List Message → Writer × End
  run w [] = (w, waiting)
  run w (disconnected ∷ messages) = (w, failed receive)
  run w (timeout ∷ messages) = (w, failed receive_timeout)
  run w (block b ∷ messages) = elim (deliver w b) [
    | ok (w', over) ↦ elim over [ none ↦ run w' messages | some flag ↦ (w', client_end flag) ]
    | err e ↦ (w, failed e)
    | panic ↦ (w, panicked)
  ]

  -- `start`, from what `client_new` returned
  unfoldable pub start : Outcome Error Writer → List Message → Outcome Error (Writer × End)
  unfolding run
  start (ok w) messages = ok (run w messages)
  start (err e) messages = err e
  start panic messages = panic
