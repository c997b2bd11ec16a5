-- ===== src/Agent/Protocol.antt =====
-- crates/agent-linux/src/protocol.rs: the framing.
pub mod Framing
use pfnc.Prelude.{
  ℕ, zero, suc, true, ◌+◌, ◌*◌, ◌/◌, ◌%◌, ◌^◌, Option, none, some, List, [], ◌∷◌, ◌++◌, Str, length,
  take, drop, leb, if◌then◌else◌,
}
use pfnc.Effect.{M, pure, fail, effect, ◌>>=◌, ◌>>◌, Result, ok, err}
use pfnc.Agent.{AgentError, stream_ended, bad_utf8, Utf8, Stream}

abbrev pub op_hello : ℕ
op_hello = 0

abbrev pub op_read_file : ℕ
op_read_file = 1

abbrev pub op_write_file : ℕ
op_write_file = 2

-- `u32::to_le_bytes` and `from_le_bytes`.
unfoldable pub to_le_bytes : ℕ → List ℕ
to_le_bytes v = v % 256 ∷ v / 256 % 256 ∷ v / 256 ^ 2 % 256 ∷ v / 256 ^ 3 % 256 ∷ []

unfoldable pub from_le_bytes : List ℕ → ℕ
from_le_bytes [] = 0
from_le_bytes (b ∷ bs) = b + 256 * from_le_bytes bs

-- The stream is one factor of the state, what else there is the other.
abbrev pub Session : Type 0 → Type 0
Session D = Stream × D

module _ {D : Type 0} where
  -- `send.write_all` and `send.finish`.
  abbrev pub send_all : List ℕ → M (Session D) AgentError (Unit {0})
  send_all bytes (s, d) = (ok tt, (record s { sent = s.sent ++ bytes }, d))

  abbrev pub finish : M (Session D) AgentError (Unit {0})
  finish (s, d) = (ok tt, (record s { finished = true }, d))

  -- `recv.read_exact`.
  abbrev pub read_exact : ℕ → M (Session D) AgentError (List ℕ)
  read_exact n (s, d) =
      if leb n (length s.incoming)
      then (ok (take n s.incoming), (record s { incoming = drop n s.incoming }, d))
      else (err stream_ended, (record s { incoming = [] }, d))

  unfoldable pub write_u8 : ℕ → M (Session D) AgentError (Unit {0})
  write_u8 v = send_all (v ∷ [])

  unfoldable pub read_u8 : M (Session D) AgentError ℕ
  unfolding from_le_bytes
  read_u8 = read_exact 1 >>= λ buf. pure (from_le_bytes buf)

  unfoldable pub write_u32 : ℕ → M (Session D) AgentError (Unit {0})
  unfolding to_le_bytes
  write_u32 v = send_all (to_le_bytes v)

  unfoldable pub read_u32 : M (Session D) AgentError ℕ
  unfolding from_le_bytes
  read_u32 = read_exact 4 >>= λ buf. pure (from_le_bytes buf)

  -- `bytes.len() as u32` keeps the low 32 bits.
  unfoldable pub write_bytes : List ℕ → M (Session D) AgentError (Unit {0})
  unfolding write_u32
  write_bytes bytes = write_u32 (length bytes % 2 ^ 32) >> send_all bytes

  unfoldable pub read_bytes : M (Session D) AgentError (List ℕ)
  unfolding read_u32
  read_bytes = read_u32 >>= read_exact

  module _ (utf8 : Utf8) where
    unfoldable pub write_string : Str → M (Session D) AgentError (Unit {0})
    unfolding write_bytes
    write_string s = write_bytes (utf8.as_bytes s)

    abbrev decoded : Option Str → M (Session D) AgentError Str
    decoded none = fail bad_utf8
    decoded (some s) = pure s

    unfoldable pub read_string : M (Session D) AgentError Str
    unfolding read_bytes
    read_string = read_bytes >>= λ bytes. decoded (utf8.from_utf8 bytes)
