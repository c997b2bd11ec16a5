-- ===== src/Agent/Server.antt =====
-- crates/agent-linux/src/lib.rs: the agent's side of one stream. `arrival` says how much of what is still to
-- come has arrived, less one byte. The loops over the chunks take fuel.
use pfnc.Prelude.{
  ℕ, zero, suc, ◌*◌, Bool, true, false, Option, none, some, List, [], ◌∷◌, Str, take, drop, min,
  ◌==◌, if◌then◌else◌,
}
use pfnc.Effect.{
  M, pure, fail, exhausted, Result, ok, err, out_of_fuel, ◌>>=◌, ◌>>◌, map_err, attempt,
}
use pfnc.Vfs.{IoError}
use pfnc.Vfs.Interface.{Reader, Writer}
use pfnc.Transport.{write_all}
use pfnc.Agent.{AgentError, stream_ended, unknown_opcode, io_failed, Utf8, Stream, Disk}
use pfnc.Agent.Protocol.{
  Session, send_all, finish, read_u8, read_u32, read_string, write_u8, write_u32, write_bytes,
  op_hello, op_read_file, op_write_file,
}

abbrev pub protocol_version : ℕ
protocol_version = 2

abbrev pub chunk_size : ℕ
chunk_size = 256 * 1024

abbrev pub as_u8 : Bool → ℕ
as_u8 true = 1
as_u8 false = 0

module _ {D : Type 0} where
  -- A call of the system, which leaves the stream alone.
  abbrev on_disk_run : {E A : Type 0} → Stream → Result E A × D → Result E A × Session D
  on_disk_run s (r, d) = (r, (s, d))

  abbrev pub on_disk : {E A : Type 0} → M D E A → M (Session D) E A
  on_disk m (s, d) = on_disk_run s (m d)

  unfoldable pub handle_hello : M (Session D) AgentError (Unit {0})
  unfolding read_u32 write_u32 write_u8
  handle_hello = do
    client_version ← read_u32
    write_u32 protocol_version
    write_u8 (as_u8 (client_version == protocol_version))
    finish

  -- The loop of `handle_read_file`.
  send_chunk : M (Session D) AgentError (Unit {0}) → List ℕ → M (Session D) AgentError (Unit {0})
  send_chunk rest [] = pure tt
  send_chunk rest (b ∷ bs) = send_all (b ∷ bs) >> rest

  unfoldable pub send_file : ℕ → Reader D → M (Session D) AgentError (Unit {0})
  unfolding send_chunk
  send_file zero file = exhausted
  send_file (suc fuel) file =
      map_err io_failed (on_disk (file.read chunk_size)) >>= send_chunk (send_file fuel file)

  module _ (arrival : List ℕ → ℕ) where
    -- `recv.read`: `none` when the peer has finished and nothing is left.
    abbrev pub read_left : List ℕ → M (Session D) AgentError (Option (List ℕ))
    read_left [] (s, d) = if s.peer_finished then (ok none, (s, d)) else (err stream_ended, (s, d))
    read_left (b ∷ bs) (s, d) =
        let n = min chunk_size (suc (arrival (b ∷ bs))) in
        (ok (some (take n (b ∷ bs))), (record s { incoming = drop n (b ∷ bs) }, d))

    abbrev pub read_some : M (Session D) AgentError (Option (List ℕ))
    read_some (s, d) = read_left s.incoming (s, d)

    receive_chunk :
        ℕ
        → Writer D
        → M (Session D) AgentError (Unit {0})
        → Option (List ℕ)
        → M (Session D) AgentError (Unit {0})
    unfolding write_all
    receive_chunk retries file rest none = pure tt
    receive_chunk retries file rest (some chunk) =
        map_err io_failed (on_disk (write_all retries file chunk)) >> rest

    unfoldable pub receive_file : ℕ → ℕ → Writer D → M (Session D) AgentError (Unit {0})
    unfolding receive_chunk
    receive_file retries zero file = exhausted
    receive_file retries (suc fuel) file =
        read_some >>= receive_chunk retries file (receive_file retries fuel file)

  module _ (utf8 : Utf8) (disk : Disk D) where
    -- `[u8 0]` and the text of the error.
    abbrev pub report_failure : IoError → M (Session D) AgentError (Unit {0})
    report_failure e = write_u8 0 >> write_bytes (utf8.as_bytes (disk.describe e))

    unfoldable pub answer_read : ℕ → Result IoError (Reader D) → M (Session D) AgentError (Unit {0})
    unfolding send_file write_u8 write_bytes
    answer_read fuel (ok file) = write_u8 1 >> send_file fuel file
    answer_read fuel (err e) = report_failure e
    answer_read fuel out_of_fuel = exhausted

    unfoldable pub handle_read_file : ℕ → M (Session D) AgentError (Unit {0})
    unfolding answer_read read_string
    handle_read_file fuel = do
      path ← read_string utf8
      opened ← attempt (on_disk (disk.open_file path))
      answer_read fuel opened
      finish

    abbrev pub set_mode : Str → Option ℕ → M D IoError (Unit {0})
    set_mode path none = pure tt
    set_mode path (some mode) = disk.set_permissions path mode

    abbrev pub read_mode : ℕ → M (Session D) AgentError (Option ℕ)
    read_mode zero = pure none
    read_mode (suc _) = read_u32 >>= λ mode. pure (some mode)

    module _ (arrival : List ℕ → ℕ) (retries fuel : ℕ) where
      unfoldable pub write_local_file_streaming :
          Str → Option ℕ → M (Session D) AgentError (Unit {0})
      unfolding receive_file
      write_local_file_streaming path mode = do
        file ← map_err io_failed (on_disk (disk.create_file path))
        receive_file arrival retries fuel file
        map_err io_failed (on_disk (set_mode path mode))

      -- The text of an error of `write_local_file_streaming`.
      abbrev reason : AgentError → Str
      reason (io_failed e) = disk.describe e
      reason _ = []

      answer_write : Result AgentError (Unit {0}) → M (Session D) AgentError (Unit {0})
      unfolding write_u8 write_bytes
      answer_write (ok _) = write_u8 1
      answer_write (err e) = write_u8 0 >> write_bytes (utf8.as_bytes (reason e))
      answer_write out_of_fuel = exhausted

      unfoldable pub handle_write_file : M (Session D) AgentError (Unit {0})
      unfolding write_local_file_streaming answer_write read_string read_u8 read_u32
      handle_write_file = do
        path ← read_string utf8
        mode_present ← read_u8
        mode ← read_mode mode_present
        written ← attempt (write_local_file_streaming path mode)
        answer_write written
        finish

      unfoldable pub handle_opcode : ℕ → M (Session D) AgentError (Unit {0})
      unfolding handle_hello handle_read_file handle_write_file
      handle_opcode opcode =
          if opcode == op_hello
          then handle_hello
          else if opcode == op_read_file
          then handle_read_file fuel
          else if opcode == op_write_file
          then handle_write_file
          else fail (unknown_opcode opcode)

      unfoldable pub handle_stream : M (Session D) AgentError (Unit {0})
      unfolding handle_opcode read_u8
      handle_stream = read_u8 >>= handle_opcode
