-- ===== src/Agent.antt =====
-- crates/agent-linux: the protocol of the agent, its server and its client. A QUIC stream, from the crate
-- quinn, carries bytes in order and without loss in each direction until the sender finishes it.
pub mod Protocol
pub mod Server
pub mod Client
mod Calls
mod Tests
use pfnc.Prelude.{ℕ, List, Str, Bool, Option}
use pfnc.Vfs.{IoError}
use pfnc.Vfs.Interface.{Reader, Writer}
use pfnc.Effect.{M}

-- The errors of `anyhow::Error` that the code makes or passes on.
pub data AgentError : Type 0 where
  stream_ended bad_utf8 : AgentError
  unknown_opcode : ℕ → AgentError
  io_failed : IoError → AgentError
  refused : Str → AgentError

-- `str::as_bytes` and `String::from_utf8`.
pub record Utf8 : Type 0 where
  pub as_bytes : Str → List ℕ
  pub from_utf8 : List ℕ → Option Str

-- Both directions of a stream as one end sees them: what is still to be received, whether the
-- peer finished or dropped the stream, and what was sent.
pub record Stream : Type 0 where
  pub incoming : List ℕ
  pub peer_finished : Bool
  pub sent : List ℕ
  pub finished : Bool

-- What the agent asks of the system it runs on; `describe` is the text of an error.
pub record Disk (D : Type 0) : Type 0 where
  pub open_file : Str → M D IoError (Reader D)
  pub create_file : Str → M D IoError (Writer D)
  pub set_permissions : Str → ℕ → M D IoError (Unit {0})
  pub describe : IoError → Str
