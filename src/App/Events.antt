-- ===== src/App/Events.antt =====
-- crates/app/src/actions.rs: `handle_job_event`, which takes what the job threads send.
use pfnc.Prelude.{
  ℕ, zero, suc, ◌+◌, Bool, true, false, not, Option, none, some, List, [], ◌∷◌, ◌++◌, Str, codes,
  filter, get_elem?, ltb, ◌==◌, if◌then◌else◌,
}
use mathlib.Core.Option
use pfnc.Vfs.{ProfileId, Location, remote}
use pfnc.Connect.{SavedProfileSummary}
use pfnc.Archive.{root_path}
use pfnc.Config.{ConnectionProfileConfig, upsert_profile}
use pfnc.Job.{JobProgress}
use pfnc.Job.Sync.{SyncPlan, is_empty_plan}
use pfnc.Job.Manager.{
  JobEvent, progressed, finished, JobOutcome, completed, was_cancelled, failed, reap, at,
}
use pfnc.App.{
  App, Libs, Mode, browsing, confirm, running, JobKind, ConfirmPurpose, Task, BackgroundJob,
  PaneSide, left_side, right_side, panel_at, put_panel, reload, reload_both, probe_quic,
  update_quic_available_for_profile, spawn_task,
}
use pfnc.App.Start.{show_number}

-- The unit and the value in it: `left` is how many larger units there are.
unfoldable pub scale : {Float : Type 0} → Libs Float → ℕ → Float → ℕ → Float × ℕ
scale libs zero value unit = (value, unit)
scale libs (suc left) value unit =
    let rest = scale libs left (libs.div_1024 value) (unit + 1) in
    if libs.ge_1024 value then rest else (value, unit)

abbrev units : List Str
units = codes "B" ∷ codes "KB" ∷ codes "MB" ∷ codes "GB" ∷ codes "TB" ∷ []

unfoldable pub format_bytes : {Float : Type 0} → Libs Float → ℕ → Str
unfolding scale
format_bytes libs bytes =
    let (value, unit) = scale libs 4 (libs.as_f64 bytes) 0 in
    if unit == 0
    then show_number bytes ++ codes " B"
    else libs.show_tenths value ++ (codes " " ++ Option.get_or (get_elem? units unit) [])

abbrev pub deletions : ℕ → Str
deletions n = if ltb 0 n then codes ", " ++ (show_number n ++ codes " to delete") else []

unfoldable pub sync_message : {Float : Type 0} → Libs Float → SyncPlan → Str
unfolding format_bytes
sync_message libs plan =
    show_number plan.files_to_copy
    ++ (codes " to copy ("
        ++ (format_bytes libs plan.bytes_total
            ++ (codes ")" ++ (deletions plan.items_to_delete ++ codes " — proceed?"))))

abbrev pub outcome_status : JobOutcome → Option Str
outcome_status completed = none
outcome_status was_cancelled = some (codes "Cancelled")
outcome_status (failed e) = some (codes "Job failed: " ++ e)

abbrev pub side_of : Bool → PaneSide
side_of true = left_side
side_of false = right_side

abbrev pub profile_config : SavedProfileSummary → ConnectionProfileConfig
profile_config p = record { id = p.id; host = p.host; port = p.port; username = p.username }

-- `HashMap::get` of the jobs in the background.
abbrev pub background_job : ℕ → List (ℕ × BackgroundJob) → Option BackgroundJob
background_job id [] = none
background_job id ((i, job) ∷ rest) =
    let later = background_job id rest in if i == id then some job else later

-- The kind of the job whose progress is shown, if it is this one.
abbrev pub current_kind : ℕ → Mode → Option JobKind
current_kind id (running state) = if state.job_id == id then some state.kind else none
current_kind id _ = none

module _ {W : Type 0} where
  abbrev pub show_progress : ℕ → JobProgress → Mode → App W → App W
  show_progress id progress (running state) app =
      if state.job_id == id
      then record app { mode = running (record state { progress = progress }) }
      else app
  show_progress id progress _ app = app

  -- A panel that turns to the root of another backend.
  unfoldable pub turn_to : PaneSide → Location → App W → App W
  unfolding probe_quic reload
  turn_to side location app = reload side (
      probe_quic side (
        put_panel side
          (record (panel_at side app) { location = location; cwd = root_path; cursor = 0 }) app))

  unfoldable pub warm_up : ProfileId → App W → App W
  unfolding spawn_task
  warm_up id app =
      if app.config.general.enable_quic_fast_path
      then record (spawn_task (codes "Warm QUIC fast path") (Task.warms (remote id)) app) {
        background_jobs =
            (app.jobs.next_id, BackgroundJob.warm_quic_fast_path id) ∷ app.background_jobs;
      }
      else app

  unfoldable pub connected : Bool → SavedProfileSummary → App W → App W
  unfolding turn_to warm_up upsert_profile
  connected target_left profile app = warm_up profile.id (
      turn_to (side_of target_left) (remote profile.id)
        (record app { config = upsert_profile (profile_config profile) app.config }))

  module _ {Float : Type 0} (libs : Libs Float) where
    unfoldable pub ask_sync : Location → Location → Option SyncPlan → App W → App W
    unfolding is_empty_plan sync_message
    ask_sync src_location dst_location none app = record app {
      status = some (codes "sync scan produced no plan");
    }
    ask_sync src_location dst_location (some plan) app =
        if is_empty_plan plan
        then record app { status = some (codes "Nothing to sync") }
        else record app {
          mode = confirm (record {
            message = sync_message libs plan;
            purpose = ConfirmPurpose.sync plan src_location dst_location;
          });
        }

    unfoldable pub follow_up : JobKind → JobOutcome → App W → App W
    unfolding reload_both connected turn_to ask_sync
    follow_up JobKind.file_op outcome app = reload_both app
    follow_up JobKind.execute_sync outcome app = reload_both app
    follow_up (JobKind.connect target_left profile) completed app =
        connected target_left profile app
    follow_up (JobKind.open_archive target_left location) completed app =
        turn_to (side_of target_left) location app
    follow_up (JobKind.scan_sync src_location dst_location cell) completed app =
        ask_sync src_location dst_location (app.cells cell)
          (record app { cells = at cell none app.cells })
    follow_up (JobKind.connect target_left profile) _ app = app
    follow_up (JobKind.open_archive target_left location) _ app = app
    follow_up (JobKind.scan_sync src_location dst_location cell) _ app = app

    unfoldable pub finish_current : Option JobKind → JobOutcome → App W → App W
    unfolding follow_up
    finish_current none outcome app = app
    finish_current (some kind) outcome app =
        follow_up kind outcome (record app { mode = browsing; status = outcome_status outcome })

    unfoldable pub finish_job : ℕ → Option BackgroundJob → JobOutcome → App W → App W
    unfolding update_quic_available_for_profile finish_current
    finish_job id (some (BackgroundJob.warm_quic_fast_path profile_id)) outcome app =
        update_quic_available_for_profile profile_id
          (record app { background_jobs = filter (λ (i, _). not (i == id)) app.background_jobs })
    finish_job id none outcome app = finish_current (current_kind id app.mode) outcome app

    unfoldable pub handle_job_event : JobEvent → App W → App W
    unfolding finish_job reap
    handle_job_event (progressed id progress) app = show_progress id progress app.mode app
    handle_job_event (finished id outcome) app =
        finish_job id (background_job id app.background_jobs) outcome
          (record app { jobs = reap id app.jobs })
