-- ===== src/Transport/Count/Streams.antt =====
-- crates/core/src/transport.rs: what `VfsStreamTransport` does to the count of files.
use pfnc.Prelude.{
  ℕ, zero, suc, ◌∙◌, ◌≡◌, refl, ap, true, false, Option, List, [], ◌∷◌, length, arith, drop,
  Bool-cases, inl, inr,
}
use pfnc.Effect.{
  M, ok, err, out_of_fuel, Result, map_err_run_state, map_err, then_run-inv, ok_of_map_err_run,
  fail, ◌>>=◌, ◌>>◌,
}
use pfnc.Vfs.{VfsPath, JobError, IoError, vfs_error}
use pfnc.Vfs.Interface.{Vfs, Reader, Writer}
use pfnc.Job.{Env}
use pfnc.Transport.{
  write_all, after_write, stream_loop, copy_chunk, stream_transfer, vfs_stream_transport,
  io_failure, advance, copy_chunk_size, is_interrupted,
}
use pfnc.Transport.Count.{files_done, CountsBy, IsCell, QuietReader, QuietWriter, IsQuiet}

module _ {W : Type 0} (env : Env W) where
  after_write_load :
      (again : List ℕ → M W IoError (Unit {0}))
      → ((buf : List ℕ) (w : W) → env.load (again buf w).1 ≡ env.load w)
      → (b : ℕ) (bs : List ℕ) (o : Result IoError ℕ × W)
      → env.load (after_write again b bs o).1 ≡ env.load o.1
  unfolding after_write
  after_write_load again h b bs (ok zero, w) = refl
  after_write_load again h b bs (ok (suc k), w) = h (drop k bs) w
  after_write_load again h b bs (err e, w) =
      elim (is_interrupted e.error_kind)
        as (λ t.
          env.load
            ((elim t as (λ _. Result IoError (Unit {0}) × W) [
              | true ↦ again (b ∷ bs) w
              | false ↦ fail e w
            ])).1
          ≡ env.load w) [ true ↦ h (b ∷ bs) w | false ↦ refl ]
  after_write_load again h b bs (out_of_fuel, w) = refl

  load-write_all :
      (o : Writer W)
      → QuietWriter env o
      → (fuel : ℕ) (buf : List ℕ) (w : W) → env.load (write_all fuel o buf w).1 ≡ env.load w
  unfolding write_all
  load-write_all o q zero buf w = refl
  load-write_all o q (suc fuel) [] w = refl
  load-write_all o q (suc fuel) (b ∷ bs) w =
      after_write_load (write_all fuel o) (load-write_all o q fuel) b bs (o.write (b ∷ bs) w)
      ∙ q.load-write (b ∷ bs) w

  module _ (cell : IsCell env) where
    files_done-advance : (n : ℕ) (w : W) → files_done env (advance env n w) ≡ files_done env w
    files_done-advance n w = ap (λ p. p.files_done) (cell.load-report _ _ ∙ cell.load-store _ _)

    copy_chunk_count :
        (retries : ℕ) (o : Writer W) (rest : M W JobError (Unit {0})) (c : ℕ) (bytes : List ℕ)
        (w : W)
        → QuietWriter env o
        → ((v : W) → files_done env v ≡ c → files_done env (rest v).1 ≡ c)
        → files_done env w ≡ c
        → files_done env (copy_chunk env retries o rest bytes w).1 ≡ c
    unfolding copy_chunk
    copy_chunk_count retries o rest c [] w q next h = h
    copy_chunk_count retries o rest c (b ∷ bs) w q next h =
        then_run-inv (λ v. files_done env v ≡ c)
          (map_err io_failure (write_all retries o (b ∷ bs)) w) _ wrote
          (λ _ _. next _ (files_done-advance (length (b ∷ bs)) _ ∙ wrote))
      where
        wrote : files_done env (map_err io_failure (write_all retries o (b ∷ bs)) w).1 ≡ c
        wrote =
            ap (files_done env) (map_err_run_state io_failure (write_all retries o (b ∷ bs) w))
            ∙ ap (λ p. p.files_done) (load-write_all o q retries (b ∷ bs) w)
            ∙ h

    stream_loop_count :
        (retries rounds : ℕ) (r : Reader W) (o : Writer W) (c : ℕ) (w : W)
        → QuietReader env r
        → QuietWriter env o
        → files_done env w ≡ c
        → files_done env (stream_loop env retries rounds r o w).1 ≡ c
    unfolding stream_loop
    stream_loop_count retries zero r o c w qr qo h = h
    stream_loop_count retries (suc rounds) r o c w qr qo h =
        elim (Bool-cases (env.is_cancelled w).0) [
          | inl stop ↦ rw stop asked
          | inr go ↦ rw go (
              then_run-inv (λ v. files_done env v ≡ c)
                (map_err io_failure (r.read copy_chunk_size) v) _ got
                (λ bytes _.
                  copy_chunk_count retries o (stream_loop env retries rounds r o) c bytes _ qo
                    (λ u. stream_loop_count retries rounds r o c u qr qo) got))
        ]
      where
        v : W
        v = (env.is_cancelled w).1

        asked : files_done env v ≡ c
        asked = ap (λ p. p.files_done) (cell.load-is_cancelled w) ∙ h

        got : files_done env (map_err io_failure (r.read copy_chunk_size) v).1 ≡ c
        got =
            ap (files_done env) (map_err_run_state io_failure (r.read copy_chunk_size v))
            ∙ ap (λ p. p.files_done) (qr copy_chunk_size v)
            ∙ asked

    module _ (src dst : Vfs W) (quiet_src : IsQuiet env src) (quiet_dst : IsQuiet env dst) where
      copied_count :
          (retries rounds : ℕ) (r : Reader W) (o : Writer W) (c : ℕ) (v : W)
          → QuietReader env r
          → QuietWriter env o
          → files_done env v ≡ c
          → files_done env ((stream_loop env retries rounds r o >> map_err io_failure o.flush) v).1
            ≡ c
      copied_count retries rounds r o c v qr qo h =
          then_run-inv (λ u. files_done env u ≡ c) (stream_loop env retries rounds r o v)
            (λ _. map_err io_failure o.flush) looped
            (λ _ _.
              ap (files_done env) (map_err_run_state io_failure (o.flush _))
              ∙ ap (λ t. t.files_done) (qo.load-flush _)
              ∙ looped)
        where
          looped : files_done env (stream_loop env retries rounds r o v).1 ≡ c
          looped = stream_loop_count retries rounds r o c v qr qo h

      stream_transfer_count :
          (retries rounds : ℕ) (p q : VfsPath) (mode : Option ℕ) (w : W)
          → files_done env (stream_transfer env retries rounds src p dst q mode w).1
            ≡ files_done env w
      unfolding stream_transfer
      stream_transfer_count retries rounds p q mode w =
          then_run-inv Q (map_err vfs_error (src.open_read p) w)
            (λ r. map_err vfs_error (dst.create_write q mode) >>= λ o.
              stream_loop env retries rounds r o >> map_err io_failure o.flush)
            opened
            (λ r found.
              then_run-inv Q (map_err vfs_error (dst.create_write q mode) v)
                (λ o. stream_loop env retries rounds r o >> map_err io_failure o.flush) created
                (λ o made.
                  copied_count retries rounds r o (files_done env w) _
                    (quiet_src.quiet_reader p w r
                      (ok_of_map_err_run vfs_error (src.open_read p w) found))
                    (quiet_dst.quiet_writer q mode v o
                      (ok_of_map_err_run vfs_error (dst.create_write q mode v) made))
                    created))
        where
          v : W
          v = (map_err {F = JobError} vfs_error (src.open_read p) w).1

          Q : W → Type 0
          Q u = files_done env u ≡ files_done env w

          opened : Q v
          opened =
              ap (files_done env) (map_err_run_state vfs_error (src.open_read p w))
              ∙ ap (λ t. t.files_done) (quiet_src.load-open_read p w)

          created : Q (map_err {F = JobError} vfs_error (dst.create_write q mode) v).1
          created =
              ap (files_done env) (map_err_run_state vfs_error (dst.create_write q mode v))
              ∙ ap (λ t. t.files_done) (quiet_dst.load-create_write q mode v)
              ∙ opened

      -- A transfer by the streams of the two backends leaves the count of files alone.
      pub vfs_stream_transport-CountsBy :
          (retries rounds : ℕ) → CountsBy env 0 src dst (vfs_stream_transport env retries rounds)
      unfolding vfs_stream_transport
      vfs_stream_transport-CountsBy retries rounds p q mode w small done =
          omega (arith, stream_transfer_count retries rounds p q mode w)
