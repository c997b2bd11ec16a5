-- ===== src/Transport/Count/Agent.antt =====
-- crates/core/src/transport.rs: what `QuicSideTransport` does to the count of files.
use pfnc.Prelude.{ℕ, ◌∙◌, ◌≡◌, sym, ap, Bool, true, false, Option, Bool-cases, inl, inr}
use pfnc.Prelude.Words.{add_word}
use pfnc.Effect.{
  ok, err, out_of_fuel, Result, ok_of_then_run, err-ne-ok, map_err_run_state, map_err, then_run-inv,
  ok_of_map_err_run, attempt, pure, ◌>>=◌,
}
use pfnc.Vfs.{VfsPath, JobError, vfs_error}
use pfnc.Vfs.Interface.{Vfs, Writer, RemoteFileAgent}
use pfnc.Job.{Env}
use pfnc.Transport.{
  progress_writer, progress_reader, quic_transfer, quic_side_transport, settle, agent_call,
}
use pfnc.Transport.Count.{files_done, CountsBy, IsCell, IsQuiet, IsQuietAgent}

module _ {W : Type 0} (env : Env W) (cell : IsCell env) where
  settle_count :
      (r : Result JobError (Unit {0})) (u : W)
      → (settle env r u).0 ≡ ok tt
      → files_done env (settle env r u).1 ≡ add_word (files_done env u) 1
  unfolding settle
  settle_count (ok _) u done = ap (λ p. p.files_done) (cell.load-report _ _ ∙ cell.load-store _ _)
  settle_count (err e) u done = elim (Bool-cases (env.is_cancelled u).0) [
    | inl stop ↦ absurd (err-ne-ok (rw stop at done))
    | inr go ↦ absurd (err-ne-ok (rw go at done))
  ]
  settle_count out_of_fuel u done = cc

  module _ (src dst : Vfs W) (quiet_src : IsQuiet env src) (quiet_dst : IsQuiet env dst)
      (agent : RemoteFileAgent W) (quiet : IsQuietAgent env agent) where
    agent_call_count :
        (b : Bool) (p q : VfsPath) (mode : Option ℕ) (w : W)
        → files_done env (agent_call env agent b src p dst q mode w).1 ≡ files_done env w
    unfolding agent_call
    agent_call_count true p q mode w =
        then_run-inv (λ u. files_done env u ≡ files_done env w)
          (map_err vfs_error (dst.create_write q mode) w)
          (λ o. attempt (agent.read_file p (progress_writer env o) >>= λ _. pure tt)) created
          (λ o made.
            then_run-inv (λ u. files_done env u ≡ files_done env w)
              (agent.read_file p (progress_writer env o) _) (λ _. pure tt) (read o made)
              (λ _ _. read o made))
      where
        created :
            files_done env (map_err {F = JobError} vfs_error (dst.create_write q mode) w).1
            ≡ files_done env w
        created =
            ap (files_done env) (map_err_run_state vfs_error (dst.create_write q mode w))
            ∙ ap (λ t. t.files_done) (quiet_dst.load-create_write q mode w)

        read :
            (o : Writer W)
            → (map_err {F = JobError} vfs_error (dst.create_write q mode) w).0 ≡ ok o
            → files_done env
                (agent.read_file p
                  (progress_writer env o)
                  (map_err {F = JobError} vfs_error (dst.create_write q mode) w).1).1
              ≡ files_done env w
        read o made =
            quiet.quiet_read p o _ (
              quiet_dst.quiet_writer q mode w o
                (ok_of_map_err_run vfs_error (dst.create_write q mode w) made))
            ∙ created
    agent_call_count false p q mode w =
        then_run-inv (λ u. files_done env u ≡ files_done env w)
          (map_err vfs_error (src.open_read p) w)
          (λ r. attempt (agent.write_file q mode (progress_reader env r))) opened
          (λ r found.
            quiet.quiet_write q mode r _
              (quiet_src.quiet_reader p w r (ok_of_map_err_run vfs_error (src.open_read p w) found))
            ∙ opened)
      where
        opened :
            files_done env (map_err {F = JobError} vfs_error (src.open_read p) w).1
            ≡ files_done env w
        opened =
            ap (files_done env) (map_err_run_state vfs_error (src.open_read p w))
            ∙ ap (λ t. t.files_done) (quiet_src.load-open_read p w)

    quic_transfer_count :
        (b : Bool) (p q : VfsPath) (mode : Option ℕ) (w : W)
        → (quic_transfer env agent b src p dst q mode w).0 ≡ ok tt
        → files_done env (quic_transfer env agent b src p dst q mode w).1
          ≡ add_word (files_done env w) 1
    unfolding quic_transfer
    quic_transfer_count b p q mode w done = elim (Bool-cases (env.is_cancelled w).0) [
      | inl stop ↦ absurd (err-ne-ok (rw stop at done))
      | inr go ↦
          let (r, called, same) =
            ok_of_then_run (agent_call env agent b src p dst q mode (env.is_cancelled w).1)
              (settle env) (rw go at done) in
          rw go (
            rw same (
              settle_count r _ (sym (ap (λ o. o.0) same) ∙ (rw go at done))
              ∙ ap (λ n. add_word n 1)
                  (agent_call_count b p q mode _
                    ∙ ap (λ t. t.files_done) (cell.load-is_cancelled w))))
    ]

    -- A transfer by the agent counts the file.
    pub quic_side_transport-CountsBy :
        (remote_is_src : Bool)
        → CountsBy env 1 src dst (quic_side_transport env agent remote_is_src)
    unfolding quic_side_transport
    quic_side_transport-CountsBy remote_is_src p q mode w small done =
        quic_transfer_count remote_is_src p q mode w done
