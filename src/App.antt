-- ===== src/App.antt =====
-- crates/app/src/app.rs and the modes of crates/core/src/mode.rs: the state of the whole program, and the
-- operations on its panels. `world` is what the backends read and change, `tasks` holds the closures that
-- the job threads run, `cells` what is in each `SyncPlanCell`. A backend of the model that runs out of fuel
-- counts as one that fails.
pub mod Start
pub mod Browse
pub mod Dispatch
pub mod Events
pub mod Tasks
pub mod Session
pub mod Editor
pub mod Modes
pub mod Frame
pub mod Whole
pub mod Panels
pub mod Opens
pub mod SyncFlow
mod Undisturbed
mod Deletes
pub mod Tests
use pfnc.Prelude.{
  ℕ, ◌+◌, Bool, true, false, Option, none, some, List, [], ◌∷◌, Str, str_eq, is_empty,
  if◌then◌else◌,
}
use pfnc.Effect.{Result, ok, err, out_of_fuel, M, ◌>>=◌}
use pfnc.Vfs.{
  VfsPath, ProfileId, Location, local, remote, archive, EntryMeta, VfsError, same_location,
}
use pfnc.Vfs.Interface.{Vfs, PathLib, RemoteFileAgent}
use pfnc.Panel.{PanelState, cursor_entry, clamp_cursor}
use pfnc.Panel
use pfnc.Editable.{EditableText}
use pfnc.Editable
use pfnc.Connect.{ConnectForm, SavedProfileSummary}
use pfnc.Keys.{KeyCode}
use pfnc.Job.{JobProgress, no_progress}
use pfnc.Job.Manager.{JobManager, spawn, at}
use pfnc.Job.Sync.{SyncPlan}
use pfnc.Config.{Config}
use pfnc.Registry.{VfsRegistry, resolve, given, ConnectionProfile}

pub data PaneSide : Type 0 where
  left_side right_side : PaneSide

pub data TextInputPurpose : Type 0 where
  mkdir : TextInputPurpose
  copy_to_dir move_to_dir : List VfsPath → TextInputPurpose
  rename_or_move : VfsPath → TextInputPurpose

pub record TextInputPrompt : Type 0 where
  pub title : Str
  pub text : EditableText
  pub purpose : TextInputPurpose

unfoldable pub new_prompt : Str → Str → TextInputPurpose → TextInputPrompt
unfolding Editable.new
new_prompt title value purpose = record {
  title = title;
  text = Editable.new value;
  purpose = purpose;
}

pub data ConfirmPurpose : Type 0 where
  delete : List VfsPath → ConfirmPurpose
  sync : SyncPlan → Location → Location → ConfirmPurpose

pub record ConfirmDialog : Type 0 where
  pub message : Str
  pub purpose : ConfirmPurpose

-- A `SyncPlanCell` is the place of its contents in `cells`.
pub data JobKind : Type 0 where
  file_op execute_sync : JobKind
  connect : Bool → SavedProfileSummary → JobKind
  open_archive : Bool → Location → JobKind
  scan_sync : Location → Location → ℕ → JobKind

pub record ProgressState : Type 0 where
  pub job_id : ℕ
  pub title : Str
  pub progress : JobProgress
  pub kind : JobKind

pub data Mode : Type 0 where
  browsing help : Mode
  confirm : ConfirmDialog → Mode
  text_input : TextInputPrompt → Mode
  connecting : ConnectForm → Mode
  running : ProgressState → Mode

pub data BackgroundJob : Type 0 where
  warm_quic_fast_path : ProfileId → BackgroundJob

-- `EditTarget` of crates/app/src/editor.rs.
pub record EditTarget : Type 0 where
  pub location : Location
  pub path : VfsPath

-- What the closure of a job captures, by what the closure does.
pub data Task (W : Type 0) : Type 0 where
  opens_archive : Location → Task W
  deletes : Location → List VfsPath → Task W
  scans : Vfs W → Vfs W → VfsPath → VfsPath → Bool → ℕ → Task W
  syncs : Location → Location → SyncPlan → Bool → Task W
  copies moves_across : Vfs W → Vfs W → Location → Location → List VfsPath → VfsPath → Bool → Task W
  moves : Location → List (VfsPath × VfsPath) → Task W
  connects : ConnectionProfile → Task W
  warms : Location → Task W

pub record App (W : Type 0) : Type 0 where
  pub registry : VfsRegistry W
  pub left : PanelState
  pub right : PanelState
  pub active : PaneSide
  pub mode : Mode
  pub jobs : JobManager
  pub background_jobs : List (ℕ × BackgroundJob)
  pub status : Option Str
  pub should_quit : Bool
  pub edit_request : Option EditTarget
  pub keymap : List (Str × KeyCode)
  pub config : Config
  pub tasks : ℕ → Option (Task W)
  pub cells : ℕ → Option SyncPlan
  pub next_cell : ℕ
  pub world : W

-- The libraries that the program calls: the text of an error, the operations on a path, the orders in which
-- a `HashMap` and a `HashSet` give what they hold, the environment, and `f64` with its `{:.1}`.
pub record Libs (Float : Type 0) : Type 0 where
  pub describe : VfsError → Str
  pub paths : PathLib
  pub bindings_order : List (Str × KeyCode) → List (Str × KeyCode)
  pub selected_order : List VfsPath → List VfsPath
  pub default_username : Str
  pub as_f64 : ℕ → Float
  pub ge_1024 : Float → Bool
  pub div_1024 : Float → Float
  pub show_tenths : Float → Str

-- `Result::ok` and `Option::is_some`.
abbrev pub is_some {ℓ} : {A : Type ℓ} → Option A → Bool
is_some none = false
is_some (some _) = true

abbrev pub other_side : PaneSide → PaneSide
other_side left_side = right_side
other_side right_side = left_side

abbrev pub listed : Result VfsError (List EntryMeta) → List EntryMeta
listed (ok entries) = entries
listed (err _) = []
listed out_of_fuel = []

abbrev pub show_entries : Result VfsError (List EntryMeta) → PanelState → PanelState
show_entries result p = clamp_cursor (record p { entries = listed result; selected = [] })

unfoldable pub location_uses_profile : Location → ProfileId → Bool
location_uses_profile local id = false
location_uses_profile (remote p) id = str_eq p id
location_uses_profile (archive base path) id = location_uses_profile base id

module _ {W : Type 0} where
  -- The panel of a side, and a panel changed.
  abbrev pub panel_at : PaneSide → App W → PanelState
  panel_at left_side app = app.left
  panel_at right_side app = app.right

  abbrev pub put_panel : PaneSide → PanelState → App W → App W
  put_panel left_side p app = record app { left = p }
  put_panel right_side p app = record app { right = p }

  abbrev pub active_panel : App W → PanelState
  active_panel app = panel_at app.active app

  abbrev pub inactive_panel : App W → PanelState
  inactive_panel app = panel_at (other_side app.active) app

  -- `active_panel_mut`
  abbrev pub change_active : (PanelState → PanelState) → App W → App W
  change_active f app = put_panel app.active (f (active_panel app)) app

  -- What `list_dir` of the panel's backend gives.
  abbrev pub fetch : VfsRegistry W → PanelState → M W VfsError (List EntryMeta)
  fetch r p = given (resolve r p.location) >>= λ vfs. vfs.list_dir p.cwd

  unfoldable pub reload : PaneSide → App W → App W
  unfolding resolve clamp_cursor
  reload side app =
      let (result, w) = fetch app.registry (panel_at side app) app.world in
      put_panel side (show_entries result (panel_at side app)) (record app { world = w })

  unfoldable pub reload_both : App W → App W
  unfolding reload
  reload_both app = reload right_side (reload left_side app)

  -- `registry.resolve(location).ok().and_then(|vfs| vfs.fast_transport()).is_some()`
  abbrev pub probe : Result VfsError (Vfs W) → W → Bool × W
  probe (ok vfs) w = let (agent, w') = vfs.fast_transport w in (is_some agent, w')
  probe (err _) w = (false, w)
  probe out_of_fuel w = (false, w)

  unfoldable pub quic_available_for : VfsRegistry W → Location → W → Bool × W
  unfolding resolve
  quic_available_for r local w = (false, w)
  quic_available_for r (remote id) w = probe (resolve r (remote id)) w
  quic_available_for r (archive base path) w = quic_available_for r base w

  -- `panel.quic_available = quic_available_for(…)`
  unfoldable pub probe_quic : PaneSide → App W → App W
  unfolding quic_available_for
  probe_quic side app =
      let (available, w) = quic_available_for app.registry (panel_at side app).location app.world in
      put_panel side (record (panel_at side app) { quic_available = available })
        (record app { world = w })

  abbrev pub update_side : ProfileId → PaneSide → App W → App W
  update_side id side app =
      if location_uses_profile (panel_at side app).location id then probe_quic side app else app

  unfoldable pub update_quic_available_for_profile : ProfileId → App W → App W
  unfolding location_uses_profile probe_quic
  update_quic_available_for_profile id app =
      update_side id right_side (update_side id left_side app)

  -- `app.jobs.spawn(label, …)`; the id of the job is the `next_id` from before.
  unfoldable pub spawn_task : Str → Task W → App W → App W
  unfolding spawn
  spawn_task label task app = record app {
    jobs = spawn label app.jobs;
    tasks = at app.jobs.next_id (some task) app.tasks;
  }

  -- A job that the dialog of its progress belongs to.
  unfoldable pub begin_job : Str → Str → JobKind → Task W → App W → App W
  unfolding spawn_task
  begin_job label title kind task app = record (spawn_task label task app) {
    mode =
        running (record {
          job_id = app.jobs.next_id;
          title = title;
          progress = no_progress;
          kind = kind;
        });
  }

abbrev pub cursor_item : Option EntryMeta → List VfsPath
cursor_item none = []
cursor_item (some e) = e.path ∷ []

unfoldable pub selected_items : {Float : Type 0} → Libs Float → PanelState → List VfsPath
unfolding cursor_entry
selected_items libs p =
    if is_empty p.selected then cursor_item (cursor_entry p) else libs.selected_order p.selected
