-- ===== src/Agent/Client.antt =====
-- crates/agent-linux/src/lib.rs: the client's calls. Each opens a stream, sends a request, and reads the
-- answer; the server runs in between, on its own part of the state.
use pfnc.Prelude.{
  ℕ, zero, suc, Bool, false, not, Option, none, some, List, [], ◌∷◌, Str, length, ◌==◌,
  if◌then◌else◌,
}
use pfnc.Prelude.Words.{add_word}
use pfnc.Effect.{M, pure, fail, exhausted, Result, ok, err, out_of_fuel, ◌>>=◌, ◌>>◌, map_err}
use pfnc.Vfs.{IoError}
use pfnc.Agent.{AgentError, io_failed, refused, Utf8, Stream}
use pfnc.Agent.Protocol.{
  Session, send_all, finish, read_u8, read_u32, read_string, write_u8, write_u32, write_string,
  op_hello, op_read_file, op_write_file,
}
use pfnc.Agent.Server.{chunk_size, on_disk, read_some}

abbrev pub opened : Stream
opened = record { incoming = []; peer_finished = false; sent = []; finished = false }

-- What one end has sent is what the other receives.
abbrev pub answered_by : Stream → Stream
answered_by peer = record {
  incoming = peer.sent;
  peer_finished = peer.finished;
  sent = [];
  finished = false;
}

module _ {C D : Type 0} (server : M (Session D) AgentError (Unit {0})) where
  -- The request, the server's run, and the answer. An error of the server only drops its end of the stream.
  unfoldable pub answer_run :
      {A : Type 0}
      → M (Session C) AgentError A
      → C
      → (Result AgentError (Unit {0})) × Session D
      → Result AgentError A × (C × D)
  answer_run answer c (out_of_fuel, (s, d)) = (out_of_fuel, (c, d))
  answer_run answer c (ok _, (s, d)) = let (r, (_, c')) = answer (answered_by s, c) in (r, (c', d))
  answer_run answer c (err _, (s, d)) = let (r, (_, c')) = answer (answered_by s, c) in (r, (c', d))

  -- When the client fails and drops its end, the server still acts on what it received.
  dropped_run :
      {A : Type 0}
      → AgentError
      → C
      → (Result AgentError (Unit {0})) × Session D
      → Result AgentError A × (C × D)
  dropped_run e c (out_of_fuel, (s, d)) = (out_of_fuel, (c, d))
  dropped_run e c (ok _, (s, d)) = (err e, (c, d))
  dropped_run e c (err _, (s, d)) = (err e, (c, d))

  unfoldable pub request_run :
      {A B : Type 0}
      → (A → M (Session C) AgentError B)
      → D
      → Result AgentError A × Session C
      → Result AgentError B × (C × D)
  unfolding answer_run dropped_run
  request_run answer d (ok a, (s, c)) = answer_run (answer a) c (server (answered_by s, d))
  request_run answer d (err e, (s, c)) = dropped_run e c (server (answered_by s, d))
  request_run answer d (out_of_fuel, (s, c)) = (out_of_fuel, (c, d))

  unfoldable pub exchange :
      {A B : Type 0}
      → M (Session C) AgentError A
      → (A → M (Session C) AgentError B)
      → M (C × D) AgentError B
  unfolding request_run
  exchange request answer (c, d) = request_run answer d (request (opened, c))

module _ {C : Type 0} where
  unfoldable pub hello_request : ℕ → M (Session C) AgentError (Unit {0})
  unfolding write_u8 write_u32
  hello_request client_version = do write_u8 op_hello; write_u32 client_version; finish

  unfoldable pub hello_answer : M (Session C) AgentError (ℕ × Bool)
  unfolding read_u8 read_u32
  hello_answer = do
    server_version ← read_u32
    compatible ← read_u8
    pure (server_version, not (compatible == 0))

  module _ (utf8 : Utf8) where
    unfoldable pub read_file_request : Str → M (Session C) AgentError (Unit {0})
    unfolding write_u8 write_string
    read_file_request path = do write_u8 op_read_file; write_string utf8 path; finish

    -- `anyhow::bail!` with the message of the agent.
    abbrev pub bail : {A : Type 0} → M (Session C) AgentError A
    bail = read_string utf8 >>= λ msg. fail (refused msg)

    module _ (arrival : List ℕ → ℕ) (on_chunk : List ℕ → M C IoError (Unit {0})) where
      take_chunk :
          (ℕ → M (Session C) AgentError ℕ) → ℕ → Option (List ℕ) → M (Session C) AgentError ℕ
      take_chunk again total none = pure total
      take_chunk again total (some chunk) =
          map_err io_failed (on_disk (on_chunk chunk)) >> again (add_word total (length chunk))

      unfoldable pub take_content : ℕ → ℕ → M (Session C) AgentError ℕ
      unfolding take_chunk
      take_content zero total = exhausted
      take_content (suc fuel) total = read_some arrival >>= take_chunk (take_content fuel) total

      unfoldable pub by_flag : ℕ → ℕ → M (Session C) AgentError ℕ
      unfolding take_content read_string
      by_flag fuel zero = bail
      by_flag fuel (suc _) = take_content fuel 0

      unfoldable pub read_file_answer : ℕ → M (Session C) AgentError ℕ
      unfolding by_flag read_u8
      read_file_answer fuel = read_u8 >>= by_flag fuel

    abbrev pub write_mode : Option ℕ → M (Session C) AgentError (Unit {0})
    write_mode (some m) = write_u8 1 >> write_u32 m
    write_mode none = write_u8 0

    module _ (next_chunk : ℕ → M C IoError (List ℕ)) where
      send_next : (ℕ → M (Session C) AgentError ℕ) → ℕ → List ℕ → M (Session C) AgentError ℕ
      send_next again total [] = pure total
      send_next again total (b ∷ bs) = send_all (b ∷ bs) >> again (add_word total (length (b ∷ bs)))

      unfoldable pub send_content : ℕ → ℕ → M (Session C) AgentError ℕ
      unfolding send_next
      send_content zero total = exhausted
      send_content (suc fuel) total =
          map_err io_failed (on_disk (next_chunk chunk_size))
          >>= send_next (send_content fuel) total

      -- The request returns the total, which the answer returns when the agent agrees.
      unfoldable pub write_file_request : ℕ → Str → Option ℕ → M (Session C) AgentError ℕ
      unfolding send_content write_u8 write_u32 write_string
      write_file_request fuel path mode = do
        write_u8 op_write_file
        write_string utf8 path
        write_mode mode
        total ← send_content fuel 0
        finish
        pure total

      unfoldable pub write_file_answer : ℕ → M (Session C) AgentError ℕ
      unfolding read_u8 read_string
      write_file_answer total = read_u8 >>= λ flag. if flag == 0 then bail else pure total

module _ {C D : Type 0} (server : M (Session D) AgentError (Unit {0})) where
  unfoldable pub hello : ℕ → M (C × D) AgentError (ℕ × Bool)
  unfolding exchange hello_request hello_answer
  hello client_version = exchange server (hello_request client_version) (λ _. hello_answer)

  unfoldable pub read_file :
      Utf8 → (List ℕ → ℕ) → ℕ → Str → (List ℕ → M C IoError (Unit {0})) → M (C × D) AgentError ℕ
  unfolding exchange read_file_request read_file_answer
  read_file utf8 arrival fuel path on_chunk =
      exchange server (read_file_request utf8 path)
        (λ _. read_file_answer utf8 arrival on_chunk fuel)

  unfoldable pub write_file :
      Utf8 → ℕ → Str → Option ℕ → (ℕ → M C IoError (List ℕ)) → M (C × D) AgentError ℕ
  unfolding exchange write_file_request write_file_answer
  write_file utf8 fuel path mode next_chunk =
      exchange server (write_file_request utf8 next_chunk fuel path mode)
        (write_file_answer utf8 next_chunk)
