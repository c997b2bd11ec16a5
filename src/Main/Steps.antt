-- ===== src/Main/Steps.antt =====
-- crates/app/src/main.rs: what can happen while the program runs. The turns of the loop, those of the input
-- thread, the threads of the jobs and the rest of the world take their steps in any order.
use pfnc.Prelude.{ℕ, ◌<◌, ◌^◌, ◌≡◌, Bool, Option, none, some, Str}
use pfnc.Effect.{Result, ok, err, out_of_fuel}
use pfnc.Vfs.{VfsPath, JobError}
use pfnc.Job.{JobProgress}
use pfnc.Job.Manager.{running, Ending, returned, failed_with, panicked, send_progress, end_job}
use pfnc.App.{App, Libs, Task}
use pfnc.App.Tasks.{Shared, Threads, run_task}
use pfnc.App.SyncFlow.{shared_of, with_shared}
use pfnc.App.Modes.{HasRoomMode}
use pfnc.App.Editor.{EditorIo}
use pfnc.Main.{Running, Turn, Polled, goes_on, poll, turn}

-- The height of an area is a `u16`.
pub record IsTurn (t : Turn) : Type 0 where
  pub left_small : t.left_height < 2 ^ 16
  pub right_small : t.right_height < 2 ^ 16

-- How the closure of a job ended; a run of the model that is out of fuel did not end.
abbrev pub ending_of : Result JobError (Unit {0}) → Option Ending
ending_of (ok _) = some (returned tt)
ending_of (err e) = some (failed_with e)
ending_of out_of_fuel = none

module _ {W Float ConnectError : Type 0} (libs : Libs Float) (io : EditorIo W)
    (extension : VfsPath → Option Str) (retries rounds : ℕ) (threads : Threads W ConnectError) where
  -- The thread of a job after its closure.
  unfoldable pub end_task : ℕ → Ending → Shared W → App W → App W
  unfolding end_job
  end_task id ending s app = record (with_shared s app) {
    jobs = end_job libs.describe id ending app.jobs;
  }

  pub data Happens : Running W → Running W → Type 0 where
    turns :
        {s s' : Running W} (t : Turn)
        → IsTurn t
        → HasRoomMode s.app.mode
        → turn libs io extension retries rounds t s ≡ goes_on s'
        → Happens s s'
    polls :
        {s : Running W} (is_paused : Bool) (polled : Polled) → Happens s (poll is_paused polled s)
    reports :
        {s : Running W} (id : ℕ) (progress : JobProgress)
        → s.app.jobs.threads id ≡ running
        → Happens s
            (record s { app = record (s.app) { jobs = send_progress id progress s.app.jobs } })
    works :
        {s : Running W} (id : ℕ) (task : Task W) (ending : Ending)
        → s.app.jobs.threads id ≡ running
        → s.app.tasks id ≡ some task
        → ending_of (run_task threads task (shared_of s.app)).0 ≡ some ending
        → Happens s (record s {
          app = end_task id ending (run_task threads task (shared_of s.app)).1 s.app;
        })
    -- The closure panicked, somewhere in the middle of its calls.
    crashes :
        {s : Running W} (id : ℕ) (w : W)
        → s.app.jobs.threads id ≡ running
        → Happens s
            (record s { app = end_task id panicked (record (shared_of s.app) { world = w }) s.app })
    -- What the calls of a thread, and other programs, do in between.
    elapses : {s : Running W} (w : W) → Happens s (record s { app = record (s.app) { world = w } })

  pub data Runs (first : Running W) : Running W → Type 0 where
    starts : Runs first first
    then_happens : {s s' : Running W} → Runs first s → Happens s s' → Runs first s'
