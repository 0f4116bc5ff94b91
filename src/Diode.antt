-- ===== src/Diode.antt =====
-- src/aux/mod.rs: where the diode is, for the programs at its two ends. An address is of a type of its
-- own, a path is a text.
use lidi.Prelude.{Option, String}

pub data DiodeSend (Addr : Type 0) : Type 0 where
  tcp : Addr → DiodeSend Addr
  unix : String → DiodeSend Addr

pub record DiodeReceive (Addr : Type 0) : Type 0 where
  pub from_tcp : Option Addr
  pub from_unix : Option String

-- A socket that is bound for clients to connect to.
pub data Listener (Addr : Type 0) : Type 0 where
  tcp_listener : Addr → Listener Addr
  unix_listener : String → Listener Addr
