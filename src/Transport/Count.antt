-- ===== src/Transport/Count.antt =====
-- crates/core/src/transport.rs: the count of files under the two transports.
pub mod Streams
pub mod Agent
use pfnc.Prelude.{
  ℕ, zero, suc, ◌<◌, ◌∙◌, ◌≡◌, refl, sym, ap, Bool, true, false, Option, List, [], ◌∷◌, length,
  arith, drop, Bool-cases, inl, inr,
}
use pfnc.Prelude.Words.{word_mod, add_word}
use pfnc.Effect.{
  M, ok, err, out_of_fuel, Result, ok_of_then_run, err-ne-ok, map_err_run_state, map_err,
  then_run-inv, ok_of_map_err_run, fail, attempt, pure, ◌>>=◌, ◌>>◌,
}
use pfnc.Vfs.{VfsPath, JobError, IoError, vfs_error}
use pfnc.Vfs.Interface.{Vfs, Reader, Writer, RemoteFileAgent}
use pfnc.Job.{Env, JobProgress}
use pfnc.Transport.{
  Transport, progress_writer, progress_reader, write_all, after_write, stream_loop, copy_chunk,
  stream_transfer, vfs_stream_transport, quic_transfer, quic_side_transport, settle, agent_call,
  io_failure, advance, copy_chunk_size, is_interrupted,
}

module _ {W : Type 0} (env : Env W) where
  abbrev pub files_done : W → ℕ
  files_done w = (env.load w).files_done

  -- A successful transfer adds `n` to the count by itself.
  abbrev pub CountsBy : ℕ → Vfs W → Vfs W → Transport W → Type 0
  CountsBy n src dst t =
      (p q : VfsPath) (mode : Option ℕ) (w : W)
      → files_done w < word_mod
      → (t.transfer src p dst q mode w).0 ≡ ok tt
      → files_done (t.transfer src p dst q mode w).1 ≡ add_word (files_done w) n

  -- The progress cell holds what was stored last, and events and the token do not touch it.
  pub record IsCell : Type 0 where
    pub load-store : (p : JobProgress) (w : W) → env.load (env.store p w) ≡ p
    pub load-report : (p : JobProgress) (w : W) → env.load (env.report p w) ≡ env.load w
    pub load-is_cancelled : (w : W) → env.load (env.is_cancelled w).1 ≡ env.load w

  abbrev pub QuietReader : Reader W → Type 0
  QuietReader r = (n : ℕ) (w : W) → env.load (r.read n w).1 ≡ env.load w

  pub record QuietWriter (o : Writer W) : Type 0 where
    pub load-write : (buf : List ℕ) (w : W) → env.load (o.write buf w).1 ≡ env.load w
    pub load-flush : (w : W) → env.load (o.flush w).1 ≡ env.load w

  -- A backend does not touch the progress cell, nor do the streams that it opens.
  pub record IsQuiet (vfs : Vfs W) : Type 0 where
    pub load-open_read : (p : VfsPath) (w : W) → env.load (vfs.open_read p w).1 ≡ env.load w
    pub load-create_write :
        (p : VfsPath) (m : Option ℕ) (w : W) → env.load (vfs.create_write p m w).1 ≡ env.load w
    pub load-mkdir :
        (p : VfsPath) (m : Option ℕ) (w : W) → env.load (vfs.mkdir p m w).1 ≡ env.load w
    pub load-symlink : (p q : VfsPath) (w : W) → env.load (vfs.symlink p q w).1 ≡ env.load w
    pub quiet_reader :
        (p : VfsPath) (w : W) (r : Reader W) → (vfs.open_read p w).0 ≡ ok r → QuietReader r
    pub quiet_writer :
        (p : VfsPath) (m : Option ℕ) (w : W) (o : Writer W)
        → (vfs.create_write p m w).0 ≡ ok o
        → QuietWriter o

  -- An agent touches the count of files no more than the stream that it is given does.
  pub record IsQuietAgent (agent : RemoteFileAgent W) : Type 0 where
    pub quiet_read :
        (p : VfsPath) (o : Writer W) (w : W)
        → QuietWriter o
        → files_done (agent.read_file p (progress_writer env o) w).1 ≡ files_done w
    pub quiet_write :
        (p : VfsPath) (m : Option ℕ) (r : Reader W) (w : W)
        → QuietReader r
        → files_done (agent.write_file p m (progress_reader env r) w).1 ≡ files_done w
