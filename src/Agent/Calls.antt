-- ===== src/Agent/Calls.antt =====
-- crates/agent-linux/src/lib.rs: calls of the client answered by the server.
use pfnc.Prelude.{
  ℕ, ◌+◌, ◌^◌, ◌<◌, ◌≡◌, ◌∙◌, refl, ap, Bool, true, false, not, some, List, [], ◌∷◌, Str, length,
  ◌==◌,
}
use pfnc.Effect.{M, fail, ok, err, then_run}
use pfnc.Vfs.{IoError}
use pfnc.Agent.{AgentError, refused, Utf8, Stream, Disk}
use pfnc.Agent.Protocol.{Session, to_le_bytes, write_u32, write_u8, write_bytes, write_string}
use pfnc.Agent.Protocol.Framing.{read_u8-cons, framed, read_string-all}
use pfnc.Agent.Server.{as_u8, handle_read_file, answer_read, handle_stream, handle_opcode}
use pfnc.Agent.Client.{
  answered_by, exchange, read_file, read_file_request, read_file_answer, by_flag, answer_run,
}

-- The server's end after a request that the client has finished.
abbrev requested : List ℕ → Stream
requested bytes = record { incoming = bytes; peer_finished = true; sent = []; finished = false }

abbrev replied : List ℕ → Stream
replied bytes = record { incoming = []; peer_finished = true; sent = bytes; finished = true }

module _ {D : Type 0} (utf8 : Utf8) (disk : Disk D) (arrival : List ℕ → ℕ) (retries fuel : ℕ) where
  abbrev server : M (Session D) AgentError (Unit {0})
  server = handle_stream utf8 disk arrival retries fuel

  module _ (decodes : (s : Str) → utf8.from_utf8 (utf8.as_bytes s) ≡ some s) where
    refuses :
        (path : Str) (e : IoError) (d d' : D)
        → disk.open_file path d ≡ (err e, d')
        → length (utf8.as_bytes path) < 2 ^ 32
        → handle_read_file utf8 disk fuel (requested (framed (utf8.as_bytes path)), d)
          ≡ (ok tt, (replied (0 ∷ framed (utf8.as_bytes (disk.describe e))), d'))
    unfolding handle_read_file answer_read write_bytes write_u32 write_u8
    refuses path e d d' opens short =
        rw (read_string-all utf8 decodes path (requested []) d short, then_run, opens) refl

    server-refuses :
        (path : Str) (e : IoError) (d d' : D)
        → disk.open_file path d ≡ (err e, d')
        → length (utf8.as_bytes path) < 2 ^ 32
        → server (requested (1 ∷ framed (utf8.as_bytes path)), d)
          ≡ (ok tt, (replied (0 ∷ framed (utf8.as_bytes (disk.describe e))), d'))
    unfolding handle_stream handle_opcode
    server-refuses path e d d' opens short =
        ap (λ o. then_run o (handle_opcode utf8 disk arrival retries fuel))
          (read_u8-cons 1 (framed (utf8.as_bytes path)) (requested []) d)
        ∙ refuses path e d d' opens short

kept_flag : (same : Bool) → not (as_u8 same + 0 == 0) ≡ same
kept_flag true = refl
kept_flag false = refl

module _ {C D : Type 0} (utf8 : Utf8) (disk : Disk D) (arrival : List ℕ → ℕ)
    (retries fuel : ℕ) where
  module _ (decodes : (s : Str) → utf8.from_utf8 (utf8.as_bytes s) ≡ some s) where
    bails :
        (path : Str) (on_chunk : List ℕ → M C IoError (Unit {0})) (e : IoError) (c : C)
        → length (utf8.as_bytes (disk.describe e)) < 2 ^ 32
        → read_file_answer utf8 arrival on_chunk fuel
            (answered_by (replied (0 ∷ framed (utf8.as_bytes (disk.describe e)))), c)
          ≡ (err (refused (disk.describe e)), (answered_by (replied []), c))
    unfolding read_file_answer
    bails path on_chunk e c short' =
        ap (λ o. then_run o (by_flag utf8 arrival on_chunk fuel))
          (read_u8-cons 0 (framed (utf8.as_bytes (disk.describe e))) (answered_by (replied [])) c)
        ∙ ap (λ o. then_run o (λ msg. fail (refused msg)))
            (read_string-all utf8 decodes (disk.describe e) (answered_by (replied [])) c short')

    -- When the agent cannot open the file, a client that reads it gets the text of that error, and is given
    -- no content. The path and the text are shorter than 4 GiB, and `from_utf8` decodes `as_bytes`.
    pub read_file-refused :
        (path : Str) (on_chunk : List ℕ → M C IoError (Unit {0})) (e : IoError) (c : C) (d d' : D)
        → disk.open_file path d ≡ (err e, d')
        → length (utf8.as_bytes path) < 2 ^ 32
        → length (utf8.as_bytes (disk.describe e)) < 2 ^ 32
        → read_file (server utf8 disk arrival retries fuel) utf8 arrival fuel path on_chunk (c, d)
          ≡ (err (refused (disk.describe e)), (c, d'))
    unfolding read_file exchange read_file_request write_u8 write_string write_bytes write_u32
        to_le_bytes
    read_file-refused path on_chunk e c d d' opens short short' =
        ap
          (answer_run (server utf8 disk arrival retries fuel)
            (read_file_answer utf8 arrival on_chunk fuel) c)
          (server-refuses utf8 disk arrival retries fuel decodes path e d d' opens short)
        ∙ ap (λ (r, (_, c')). (r, (c', d'))) (bails path on_chunk e c short')
