-- ===== src/App/Frame/Reactions.antt =====
-- crates/app/src/actions.rs, `handle_job_event`: the rules for what every event of a job keeps.
use pfnc.Prelude.{ℕ, Option, none, some, List, Str, ◌==◌}
use pfnc.Vfs.{Location, remote}
use pfnc.Archive.{root_path}
use pfnc.Config.{Config}
use pfnc.Job.{JobProgress}
use pfnc.Job.Manager.{
  JobManager, JobEvent, progressed, finished, JobOutcome, completed, was_cancelled, failed, reap,
  at,
}
use pfnc.Job.Sync.{SyncPlan, is_empty_plan}
use pfnc.App.{
  App, Libs, Mode, browsing, help, confirm, text_input, connecting, running, JobKind, BackgroundJob,
  Task, PaneSide, left_side, right_side, panel_at, put_panel, reload_both, probe_quic, update_side,
  update_quic_available_for_profile, location_uses_profile, spawn_task,
}
use pfnc.App.Events.{
  handle_job_event, finish_job, finish_current, follow_up, current_kind, background_job,
  show_progress, turn_to, connected, warm_up, ask_sync, side_of,
}
use pfnc.App.Frame.{Rules, chosen}

-- What the steps of an event keep, besides those of a key.
pub record Reacts {W : Type 0} (P : App W → Type 0) : Type 0 where
  pub turns :
      (side : PaneSide) (l : Location) (app : App W)
      → P app
      → P (
          put_panel side
            (record (panel_at side app) { location = l; cwd = root_path; cursor = 0 })
            app)
  pub probes : (side : PaneSide) (app : App W) → P app → P (probe_quic side app)
  pub configures : (c : Config) (app : App W) → P app → P (record app { config = c })
  pub warms :
      (label : Str) (task : Task W) (background : List (ℕ × BackgroundJob)) (app : App W)
      → P app
      → P (record (spawn_task label task app) { background_jobs = background })
  pub forgets :
      (jobs : JobManager) (background : List (ℕ × BackgroundJob)) (app : App W)
      → P app
      → P (record app { jobs = jobs; background_jobs = background })

module _ {W : Type 0} (Q : Type 0) (P : App W → Type 0) (rules : Rules Q P)
    (reacts : Reacts P) where
  said : (s : Option Str) (app : App W) → P app → P (record app { status = s })
  said s app p = rules.acts s app.world app p

  reload_both_keeps : (app : App W) → P app → P (reload_both app)
  unfolding reload_both
  reload_both_keeps app p = rules.reloads right_side _ (rules.reloads left_side app p)

  turn_to_keeps : (side : PaneSide) (l : Location) (app : App W) → P app → P (turn_to side l app)
  unfolding turn_to
  turn_to_keeps side l app p =
      rules.reloads side _ (reacts.probes side _ (reacts.turns side l app p))

  warm_up_keeps : (id : List ℕ) (app : App W) → P app → P (warm_up id app)
  unfolding warm_up
  warm_up_keeps id app p =
      chosen P app.config.general.enable_quic_fast_path (reacts.warms _ _ _ app p) p

  update_side_keeps :
      (id : List ℕ) (side : PaneSide) (app : App W) → P app → P (update_side id side app)
  update_side_keeps id side app p =
      chosen P (location_uses_profile (panel_at side app).location id) (reacts.probes side app p) p

  show_progress_keeps :
      (id : ℕ) (progress : JobProgress) (m : Mode) (app : App W)
      → P app
      → P (show_progress id progress m app)
  show_progress_keeps id progress (running state) app p =
      chosen P (state.job_id == id) (rules.sets_mode _ app (λ _ _. tt) p) p
  show_progress_keeps id progress browsing app p = p
  show_progress_keeps id progress help app p = p
  show_progress_keeps id progress (confirm _) app p = p
  show_progress_keeps id progress (text_input _) app p = p
  show_progress_keeps id progress (connecting _) app p = p

  module _ {Float : Type 0} (libs : Libs Float) where
    ask_sync_keeps :
        (src dst : Location) (plan : Option SyncPlan) (app : App W)
        → P app
        → P (ask_sync libs src dst plan app)
    unfolding ask_sync
    ask_sync_keeps src dst none app p = said _ app p
    ask_sync_keeps src dst (some plan) app p =
        chosen P (is_empty_plan plan) (said _ app p) (rules.sets_mode _ app (λ _ _. tt) p)

    follow_up_keeps :
        (kind : JobKind) (outcome : JobOutcome) (app : App W)
        → P app
        → P (follow_up libs kind outcome app)
    unfolding follow_up connected
    follow_up_keeps JobKind.file_op outcome app p = reload_both_keeps app p
    follow_up_keeps JobKind.execute_sync outcome app p = reload_both_keeps app p
    follow_up_keeps (JobKind.connect to_left profile) completed app p =
        warm_up_keeps profile.id _
          (turn_to_keeps (side_of to_left) (remote profile.id) _ (reacts.configures _ app p))
    follow_up_keeps (JobKind.open_archive to_left l) completed app p =
        turn_to_keeps (side_of to_left) l app p
    follow_up_keeps (JobKind.scan_sync src dst cell) completed app p =
        ask_sync_keeps src dst (app.cells cell) _
          (rules.allocates (at cell none app.cells) app.next_cell app p)
    follow_up_keeps (JobKind.connect to_left profile) was_cancelled app p = p
    follow_up_keeps (JobKind.open_archive to_left l) was_cancelled app p = p
    follow_up_keeps (JobKind.scan_sync src dst cell) was_cancelled app p = p
    follow_up_keeps (JobKind.connect to_left profile) (failed _) app p = p
    follow_up_keeps (JobKind.open_archive to_left l) (failed _) app p = p
    follow_up_keeps (JobKind.scan_sync src dst cell) (failed _) app p = p

    finish_current_keeps :
        (kind : Option JobKind) (outcome : JobOutcome) (app : App W)
        → P app
        → P (finish_current libs kind outcome app)
    unfolding finish_current
    finish_current_keeps none outcome app p = p
    finish_current_keeps (some kind) outcome app p =
        follow_up_keeps kind outcome _ (rules.sets_status _ browsing app (λ _ _. tt) p)

    finish_job_keeps :
        (id : ℕ) (job : Option BackgroundJob) (outcome : JobOutcome) (app : App W)
        → P app
        → P (finish_job libs id job outcome app)
    unfolding finish_job update_quic_available_for_profile
    finish_job_keeps id none outcome app p =
        finish_current_keeps (current_kind id app.mode) outcome app p
    finish_job_keeps id (some (BackgroundJob.warm_quic_fast_path profile)) outcome app p =
        update_side_keeps profile right_side _
          (update_side_keeps profile left_side _ (reacts.forgets app.jobs _ app p))

    -- What an event of a job leaves, whatever job it is of.
    pub handle_job_event_keeps :
        (event : JobEvent) (app : App W) → P app → P (handle_job_event libs event app)
    unfolding handle_job_event
    handle_job_event_keeps (progressed id progress) app p =
        show_progress_keeps id progress app.mode app p
    handle_job_event_keeps (finished id outcome) app p =
        finish_job_keeps id (background_job id app.background_jobs) outcome _
          (reacts.forgets (reap id app.jobs) app.background_jobs app p)
