-- ===== src/Transport/Stream.antt =====
-- crates/core/src/transport.rs, the loop of `VfsStreamTransport` on streams that neither fail nor are
-- cancelled.
use pfnc.Prelude.{
  ℕ, zero, suc, ◌+◌, ◌<◌, ◌∙◌, ◌≡◌, refl, sym, ap, List, [], ◌∷◌, ◌++◌, length, append-nil,
  append_assoc, arith, length-append,
}
use pfnc.Prelude.Words.{word_mod, add_word}
use pfnc.Effect.{ok, Result, map_err_run}
use pfnc.Vfs.{JobError}
use pfnc.Vfs.Interface.{Reader, Writer}
use pfnc.Job.{Env, add_bytes, update}
use pfnc.Transport.{copy_chunk, stream_loop, advance, copy_chunk_size}
use pfnc.Transport.Pipe.{IsPipe, write_all_lem}

module _ {W : Type 0} (env : Env W) (reader : Reader W) (writer : Writer W) (P : W → Type 0)
    (pending stored : W → List ℕ) (pipe : IsPipe env reader writer P pending stored) where
  -- What the loop leaves behind: all that was pending is stored behind what was stored before.
  pub record Copied (w : W) (o : Result JobError (Unit {0}) × W) : Type 0 where
    pub finished : o.0 ≡ ok tt
    pub copied_holds : P o.1
    pub used_up : pending o.1 ≡ []
    pub copied : stored o.1 ≡ stored w ++ pending w
    pub counted : (env.load o.1).bytes_done ≡ add_word (env.load w).bytes_done (length (pending w))

  record Advanced (n : ℕ) (v v' : W) : Type 0 where
    adv_holds : P v'
    adv_pending : pending v' ≡ pending v
    adv_stored : stored v' ≡ stored v
    adv_count : (env.load v').bytes_done ≡ add_word (env.load v).bytes_done n

  advance-Advanced : (n : ℕ) (v : W) → P v → Advanced n v (advance env n v)
  advance-Advanced n v h =
      let (p, a, b) = pipe.store_keeps (add_bytes n (env.load v)) v h in
      let (q, c, d) = pipe.report_keeps (env.load (update env (add_bytes n) v)) _ p in
      record {
        adv_holds = q;
        adv_pending = c ∙ a;
        adv_stored = d ∙ b;
        adv_count = ap (λ t. t.bytes_done) (pipe.load-report _ _ ∙ pipe.load-store _ _);
      }

  -- The rest of the copy after a chunk that is stored and counted.
  Copied-step :
      (bytes : List ℕ) (w w' v v' : W) (o : Result JobError (Unit {0}) × W)
      → bytes ++ pending w' ≡ pending w
      → stored w' ≡ stored w
      → env.load w' ≡ env.load w
      → stored v ≡ stored w' ++ bytes
      → pending v ≡ pending w'
      → env.load v ≡ env.load w'
      → Advanced (length bytes) v v'
      → Copied v' o
      → Copied w o
  Copied-step bytes w w' v v' o split s l sv pv lv a c = record {
    finished = c.finished;
    copied_holds = c.copied_holds;
    used_up = c.used_up;
    copied = c.copied ∙ rw (a.adv_stored, a.adv_pending, sv, pv, s, append_assoc, split);
    counted = omega (
      arith,
      c.counted,
      a.adv_count,
      ap length split,
      length-append bytes (pending w'),
      ap length (a.adv_pending ∙ pv),
      ap (λ t. t.bytes_done) (lv ∙ l),
    );
  }

  -- A round: `w'` is the state after the chunk was read.
  copy_chunk-Copied :
      (retries rounds : ℕ) (bytes : List ℕ) (w w' : W)
      → P w'
      → bytes ++ pending w' ≡ pending w
      → stored w' ≡ stored w
      → env.load w' ≡ env.load w
      → (bytes ≡ [] → pending w ≡ [])
      → length (pending w) < suc rounds
      → length (pending w) < retries
      → (env.load w).bytes_done < word_mod
      → ((v : W)
          → P v
          → length (pending v) < rounds
          → length (pending v) < retries
          → (env.load v).bytes_done < word_mod
          → Copied v (stream_loop env retries rounds reader writer v))
      → Copied w
          (copy_chunk env retries writer (stream_loop env retries rounds reader writer) bytes w')
  unfolding copy_chunk
  copy_chunk-Copied retries rounds [] w w' h split same_stored same_progress end enough tries small
        next =
      record {
        finished = refl;
        copied_holds = h;
        used_up = split ∙ end refl;
        copied = same_stored ∙ rw (end refl, append-nil);
        counted = rw (end refl, same_progress) (omega arith);
      }
  copy_chunk-Copied retries rounds (b ∷ bs) w w' h split same_stored same_progress end enough tries
        small next =
      let shorter : length (b ∷ bs) + length (pending w') ≡ length (pending w) =
        omega (arith, ap length split, length-append (b ∷ bs) (pending w')) in
      let wrote =
        write_all_lem env reader writer P pending stored pipe retries (b ∷ bs) w' h (omega arith) in
      let a = advance-Advanced (length (b ∷ bs)) _ wrote.wrote_holds in
      let left = ap length (a.adv_pending ∙ wrote.left_pending) in
      rw (wrote.done, map_err_run)
        (Copied-step (b ∷ bs) w w' _ _ _ split same_stored same_progress wrote.all_stored
          wrote.left_pending wrote.left_progress a
          (next _ a.adv_holds (omega (arith, left)) (omega (arith, left))
            (omega (arith, a.adv_count))))

  -- Where the reader gives its bytes without an error up to their end, the writer takes at least one of the bytes that
  -- it is given and fails at none, the token is not set, and `bytes_done` does not wrap at the start: with fuel
  -- for each byte, the loop ends with success, having stored every pending byte once and in order, and having
  -- added their number to `bytes_done`.
  pub stream_loop-Copied :
      (retries rounds : ℕ) (w : W)
      → P w
      → length (pending w) < rounds
      → length (pending w) < retries
      → (env.load w).bytes_done < word_mod
      → Copied w (stream_loop env retries rounds reader writer w)
  unfolding stream_loop
  stream_loop-Copied retries zero w h enough tries small = absurd (omega arith)
  stream_loop-Copied retries (suc rounds) w h enough tries small =
      let v = (env.is_cancelled w).1 in
      let asked = pipe.asks w h in
      let p = asked.holds in
      rw (pipe.runs w h, pipe.read_ok v p)
        (copy_chunk-Copied retries rounds (pipe.got v) w (reader.read copy_chunk_size v).1
          (pipe.read_holds v p) (pipe.read_pending v p ∙ asked.same_pending)
          (pipe.read_stored v p ∙ asked.same_stored) (pipe.read_progress v p ∙ asked.same_progress)
          (λ e. sym asked.same_pending ∙ pipe.read_end v p e) enough tries small
          (stream_loop-Copied retries rounds))
