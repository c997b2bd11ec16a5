-- ===== src/App/SyncFlow.antt =====
-- crates/app/src/actions.rs: a sync from its scan, over the question, to its execution.

use pfnc.Prelude.{ℕ, ◌≡◌, refl, ap, ◌∙◌, Bool, true, false, none, some, ==_refl, codes}
use pfnc.Effect.{Result, ok, err, out_of_fuel}
use pfnc.Vfs.{VfsPath, Location, JobError}
use pfnc.Vfs.Interface.{Vfs}
use pfnc.Keys.{char}
use pfnc.Job.Manager.{finished, completed, at, reap}
use pfnc.Job.Sync.{SyncPlan, build_sync_plan, is_empty_plan}
use pfnc.App.{App, Libs, browsing, running, ProgressState, JobKind, Task, begin_job, spawn_task}
use pfnc.App.Tasks.{Shared, Threads, run_task, store_plan}
use pfnc.App.Start.{spawn_execute_sync}
use pfnc.App.Events.{
  handle_job_event, finish_job, finish_current, follow_up, ask_sync, background_job,
}
use pfnc.App.Dispatch.{handle_key, handle_confirm_key, carry_out}

-- What the threads see of the program, and the program after a thread changed it.
abbrev pub shared_of : {W : Type 0} → App W → Shared W
shared_of app = record { registry = app.registry; cells = app.cells; world = app.world }

abbrev pub with_shared : {W : Type 0} → Shared W → App W → App W
with_shared s app = record app { registry = s.registry; cells = s.cells; world = s.world }

module _ {W : Type 0} where
  stored_plan :
      (cell : ℕ) (o : Result JobError SyncPlan × W) (s : Shared W)
      → (store_plan cell o s).0 ≡ ok tt
      → (plan : SyncPlan) × (o.0 ≡ ok plan) × ((store_plan cell o s).1.cells cell ≡ some plan)
  stored_plan cell (ok plan, w) s done = (plan, refl, rw (==_refl cell) refl)
  stored_plan cell (err e, w) s done = cc
  stored_plan cell (out_of_fuel, w) s done = cc

  module _ {Float : Type 0} (libs : Libs Float) where
    -- The end of the scan of the job that is on the screen.
    asked :
        (app : App W) (state : ProgressState) (src dst : Location) (cell : ℕ)
        → app.mode ≡ running state
        → state.kind ≡ JobKind.scan_sync src dst cell
        → background_job state.job_id app.background_jobs ≡ none
        → handle_job_event libs (finished state.job_id completed) app
          ≡ ask_sync libs src dst (app.cells cell) (record app {
            jobs = reap state.job_id app.jobs;
            mode = browsing;
            status = none;
            cells = at cell none app.cells;
          })
    unfolding handle_job_event finish_job finish_current follow_up
    asked app state src dst cell shown scanning own =
        rw (own, shown, ==_refl state.job_id, scanning) refl

    confirmed :
        (src dst : Location) (plan : SyncPlan) (a : App W)
        → is_empty_plan plan ≡ false
        → handle_key libs (char b'y') (ask_sync libs src dst (some plan) a)
          ≡ some (spawn_execute_sync plan src dst (record a { mode = browsing }))
    unfolding handle_key handle_confirm_key carry_out ask_sync
    confirmed src dst plan a some_work = rw some_work refl

    nothing_to_do :
        (src dst : Location) (plan : SyncPlan) (a : App W)
        → is_empty_plan plan ≡ true
        → ask_sync libs src dst (some plan) a ≡ record a { status = some (codes "Nothing to sync") }
    unfolding ask_sync
    nothing_to_do src dst plan a no_work = rw no_work refl

    syncing :
        (src dst : Location) (plan : SyncPlan) (a : App W)
        → (spawn_execute_sync plan src dst a).tasks a.jobs.next_id
          ≡ some (Task.syncs src dst plan a.config.general.enable_quic_fast_path)
    unfolding spawn_execute_sync begin_job spawn_task
    syncing src dst plan a = rw (==_refl a.jobs.next_id) refl

    -- What becomes of a scan that ended well: with nothing to do, a line that says so and no new job; else,
    -- once the user says yes, a job that carries out the plan of the scan.
    pub record ScanLeads (scanned : App W) (plan : SyncPlan) (src dst : Location) (id : ℕ)
        : Type 0 where
      pub none_to_do :
          is_empty_plan plan ≡ true
          → ((handle_job_event libs (finished id completed) scanned).tasks ≡ scanned.tasks)
            × ((handle_job_event libs (finished id completed) scanned).mode ≡ browsing)
      pub carried_out :
          is_empty_plan plan ≡ false
          → (after : App W) × (handle_key libs
                (char b'y')
                (handle_job_event libs (finished id completed) scanned)
              ≡ some after)
            × (after.tasks scanned.jobs.next_id
                ≡ some (Task.syncs src dst plan scanned.config.general.enable_quic_fast_path))

    module _ {ConnectError : Type 0} (threads : Threads W ConnectError) where
      -- When the thread of a scan ends well and the scan is the job on the screen, the plan that
      -- `build_sync_plan` returned is what the user is asked about: if it is empty no job starts, else the
      -- key `y` starts a job that executes exactly this plan between the same two locations.
      pub run_task-ScanLeads :
          (app : App W) (state : ProgressState) (src_vfs dst_vfs : Vfs W)
          (src_root dst_root : VfsPath) (delete_extraneous : Bool) (src dst : Location) (cell : ℕ)
          → app.mode ≡ running state
          → state.kind ≡ JobKind.scan_sync src dst cell
          → background_job state.job_id app.background_jobs ≡ none
          → (run_task threads
              (Task.scans src_vfs dst_vfs src_root dst_root delete_extraneous cell)
              (shared_of app)).0
            ≡ ok tt
          → (plan : SyncPlan) × ((build_sync_plan threads.env threads.paths threads.order
                threads.depth src_vfs dst_vfs src_root dst_root delete_extraneous app.world).0
              ≡ ok plan)
            × ScanLeads
                (with_shared
                  (run_task threads
                    (Task.scans src_vfs dst_vfs src_root dst_root delete_extraneous cell)
                    (shared_of app)).1
                  app)
                plan
                src
                dst
                state.job_id
      unfolding run_task reap
      run_task-ScanLeads app state src_vfs dst_vfs src_root dst_root delete_extraneous src dst cell
            shown scanning own done =
          let o =
            build_sync_plan threads.env threads.paths threads.order threads.depth src_vfs dst_vfs
              src_root dst_root delete_extraneous app.world in
          let (plan, built, held) = stored_plan cell o (shared_of app) done in
          let scanned : App W = with_shared (store_plan cell o (shared_of app)).1 app in
          let at_end : App W = record scanned {
            jobs = reap state.job_id scanned.jobs;
            mode = browsing;
            status = none;
            cells = at cell none scanned.cells;
          } in
          let question : handle_job_event libs (finished state.job_id completed) scanned
              ≡ ask_sync libs src dst (some plan) at_end =
            asked scanned state src dst cell shown scanning own
            ∙ ap (λ found. ask_sync libs src dst found at_end) held in
          (
            plan,
            built,
            record {
              none_to_do = λ empty.
                  let e = question ∙ nothing_to_do src dst plan at_end empty in
                  (ap (λ a. a.tasks) e, ap (λ a. a.mode) e);
              carried_out = λ work. (
                _,
                ap (handle_key libs (char b'y')) question ∙ confirmed src dst plan at_end work,
                syncing src dst plan (record at_end { mode = browsing }),
              );
            },
          )
