-- ===== src/Job.antt =====
-- crates/core/src/job.rs: progress, the walks that plan a job, and the jobs.
pub mod Walk
pub mod Item
pub mod Tasks
pub mod Sync
pub mod Manager
use pfnc.Prelude.{ℕ, Option, none, some, Bool}
use pfnc.Prelude.Words.{add_word}
use pfnc.Vfs.{VfsPath, EntryMeta}

pub record JobProgress : Type 0 where
  pub bytes_done : ℕ
  pub bytes_total : ℕ
  pub files_done : ℕ
  pub files_total : ℕ
  pub current_file : Option VfsPath

abbrev pub no_progress : JobProgress
no_progress = record {
  bytes_done = 0;
  bytes_total = 0;
  files_done = 0;
  files_total = 0;
  current_file = none;
}

-- What a job uses besides its backends: its `CancellationToken`, which another thread may set at any
-- time, the sender of its progress events, and the cell of its `&mut JobProgress`.
pub record Env (W : Type 0) : Type 0 where
  pub is_cancelled : W → Bool × W
  pub report : JobProgress → W → W
  pub load : W → JobProgress
  pub store : JobProgress → W → W

module _ {W : Type 0} (env : Env W) where
  abbrev pub update : (JobProgress → JobProgress) → W → W
  update f w = env.store (f (env.load w)) w

  -- `report(progress.clone())`
  abbrev pub report_now : W → W
  report_now w = env.report (env.load w) w

abbrev pub add_bytes : ℕ → JobProgress → JobProgress
add_bytes n p = record p { bytes_done = add_word p.bytes_done n }

abbrev pub add_file : JobProgress → JobProgress
add_file p = record p { files_done = add_word p.files_done 1 }

abbrev pub now_at : VfsPath → JobProgress → JobProgress
now_at path p = record p { current_file = some path }
