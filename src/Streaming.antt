-- ===== src/Streaming.antt =====
-- src/streaming.rs: what the stream worker is told and what it reports. The envelope type is
-- generated from the protocol files, so it is a parameter.
pub mod Tracker
pub mod Buffer
pub mod Incoming
pub mod Worker
use construct_tui.Prelude.{ℕ, Bool, Option, List}
use construct_tui.Prelude.Bytes.{Bytes}
use construct_tui.Prelude.Int.{ℤ}

pub data StreamCmd (E : Type 0) : Type 0 where
  send : E → StreamCmd E
  subscribe : List Bytes → Option Bytes → StreamCmd E
  close : StreamCmd E
  shutdown : StreamCmd E

-- A delay is in milliseconds. The last field of each server event is its `stream_cursor`.
pub data StreamEvent (E : Type 0) : Type 0 where
  message : E → Option Bytes → StreamEvent E
  ack : Bytes → Option Bytes → StreamEvent E
  heartbeat : ℤ → ℤ → Option Bytes → StreamEvent E
  stream_error : Bytes → ℤ → Bytes → Bool → Option ℤ → Option Bytes → StreamEvent E
  connected : StreamEvent E
  disconnected : StreamEvent E
  reconnecting : ℕ → ℕ → StreamEvent E
  auth_required : StreamEvent E
