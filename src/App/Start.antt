-- ===== src/App/Start.antt =====
-- crates/app/src/actions.rs, the functions `start_…` and `spawn_…`: what a command asks, and the jobs that it starts.
use pfnc.Prelude.{
  ℕ, ◌+◌, Bool, true, false, Option, none, some, List, [], ◌∷◌, ◌++◌, map, length, is_empty, Str,
  codes, if◌then◌else◌,
}
use pfnc.Prelude.Decimal.{to_digits}
use pfnc.Effect.{Result, ok, err, out_of_fuel}
use pfnc.Vfs.{VfsPath, VfsError, Location, EntryMeta, is_dir, same_location}
use pfnc.Vfs.Interface.{Vfs}
use pfnc.Panel.{cursor_entry}
use pfnc.Connect.{new_form, SavedProfileSummary, Submission}
use pfnc.Config.{ConnectionProfileConfig}
use pfnc.Registry.{resolve, ConnectionProfile, AuthMethod}
use pfnc.Job.Sync.{SyncPlan}
use pfnc.Job.Manager.{at}
use pfnc.App.{
  App, Libs, Mode, browsing, confirm, text_input, connecting, JobKind, ConfirmPurpose,
  TextInputPurpose, Task, PaneSide, left_side, right_side, new_prompt, active_panel, inactive_panel,
  selected_items, begin_job,
}

unfoldable pub show_number : ℕ → Str
unfolding to_digits
show_number n = to_digits 20 n

-- Two backends at once; the error of the first comes first.
abbrev pub both :
    {W : Type 0}
    → Result VfsError (Vfs W)
    → Result VfsError (Vfs W)
    → Result VfsError (Vfs W × Vfs W)
both (ok s) (ok d) = ok (s, d)
both (err e) _ = err e
both (ok _) (err e) = err e
both (ok _) out_of_fuel = out_of_fuel
both out_of_fuel _ = out_of_fuel

abbrev pub is_left : PaneSide → Bool
is_left left_side = true
is_left right_side = false

abbrev pub summary_of : ConnectionProfileConfig → SavedProfileSummary
summary_of p = record { id = p.id; host = p.host; port = p.port; username = p.username }

abbrev pub profile_of : Submission → ConnectionProfile
profile_of s = record {
  id = s.summary.id;
  host = s.summary.host;
  port = s.summary.port;
  username = s.summary.username;
  auth = AuthMethod.auto s.password;
}

abbrev pub delete_message : List VfsPath → Str
delete_message (item ∷ []) = codes "Delete '" ++ (item ++ codes "'?")
delete_message items = codes "Delete " ++ (show_number (length items) ++ codes " items?")

-- `filter_map` over the items: what has no file name is left out.
abbrev pub named_pair :
    {Float : Type 0} → Libs Float → VfsPath → VfsPath → Option Str → List (VfsPath × VfsPath)
named_pair libs dest_dir item none = []
named_pair libs dest_dir item (some name) = (item, libs.paths.join dest_dir name) ∷ []

abbrev pub move_pairs :
    {Float : Type 0} → Libs Float → VfsPath → List VfsPath → List (VfsPath × VfsPath)
move_pairs libs dest_dir [] = []
move_pairs libs dest_dir (item ∷ items) =
    named_pair libs dest_dir item (libs.paths.file_name item) ++ move_pairs libs dest_dir items

module _ {W : Type 0} where
  unfoldable pub start_open_archive : Location → App W → App W
  unfolding begin_job
  start_open_archive location app =
      begin_job (codes "Open archive") (codes "Opening archive")
        (JobKind.open_archive (is_left app.active) location) (Task.opens_archive location) app

  unfoldable pub start_mkdir : App W → App W
  start_mkdir app = record app {
    mode = text_input (new_prompt (codes "New directory name:") [] TextInputPurpose.mkdir);
  }

  abbrev pub request_edit : Option EntryMeta → App W → App W
  request_edit none app = app
  request_edit (some entry) app = if is_dir entry.kind then app else record app {
    edit_request = some (record { location = (active_panel app).location; path = entry.path });
  }

  unfoldable pub start_edit : App W → App W
  unfolding cursor_entry
  start_edit app = request_edit (cursor_entry (active_panel app)) app

  unfoldable pub spawn_delete : List VfsPath → App W → App W
  unfolding begin_job
  spawn_delete items app =
      begin_job (codes "Delete") (codes "Deleting") JobKind.file_op
        (Task.deletes (active_panel app).location items) app

  unfoldable pub spawn_execute_sync : SyncPlan → Location → Location → App W → App W
  unfolding begin_job
  spawn_execute_sync plan src_location dst_location app =
      begin_job (codes "Sync") (codes "Syncing") JobKind.execute_sync
        (Task.syncs src_location dst_location plan app.config.general.enable_quic_fast_path) app

  unfoldable pub spawn_move_same_backend : Location → List (VfsPath × VfsPath) → App W → App W
  unfolding begin_job
  spawn_move_same_backend location pairs app =
      begin_job (codes "Move") (codes "Moving") JobKind.file_op (Task.moves location pairs) app

  -- What `submit_connect` does with a form that is in order.
  unfoldable pub spawn_connect : Submission → App W → App W
  unfolding begin_job
  spawn_connect s app =
      begin_job (codes "Connect") (codes "Connecting")
        (JobKind.connect (is_left app.active) s.summary) (Task.connects (profile_of s)) app

  -- The two backends of a job, or the status line that says what failed.
  abbrev pub with_backends :
      (VfsError → Str)
      → Str
      → Mode
      → (Vfs W → Vfs W → App W → App W)
      → Result VfsError (Vfs W × Vfs W)
      → App W
      → App W
  with_backends describe what mode begin (ok (src, dst)) app = begin src dst app
  with_backends describe what mode begin (err e) app = record app {
    status = some (what ++ describe e);
    mode = mode;
  }
  with_backends describe what mode begin out_of_fuel app = record app { mode = mode }

  module _ {Float : Type 0} (libs : Libs Float) where
    abbrev pub ask_copy : List VfsPath → App W → App W
    ask_copy items app = if is_empty items then app else record app {
      mode = text_input (
          new_prompt (codes "Copy to:") (inactive_panel app).cwd
            (TextInputPurpose.copy_to_dir items));
    }

    unfoldable pub start_copy : App W → App W
    unfolding selected_items
    start_copy app = ask_copy (selected_items libs (active_panel app)) app

    abbrev pub ask_rename : Option EntryMeta → App W → App W
    ask_rename none app = app
    ask_rename (some entry) app = record app {
      mode = text_input (
          new_prompt (codes "Rename/move to:") (libs.paths.join (active_panel app).cwd entry.name)
            (TextInputPurpose.rename_or_move entry.path));
    }

    unfoldable pub start_move : App W → App W
    unfolding cursor_entry
    start_move app =
        if is_empty (active_panel app).selected
        then ask_rename (cursor_entry (active_panel app)) app
        else record app {
          mode = text_input (
              new_prompt (codes "Move to:") (inactive_panel app).cwd
                (TextInputPurpose.move_to_dir (libs.selected_order (active_panel app).selected)));
        }

    unfoldable pub ask_delete : List VfsPath → App W → App W
    unfolding spawn_delete
    ask_delete items app =
        if is_empty items
        then app
        else if app.config.general.confirm_delete
        then record app {
          mode =
              confirm
                (record { message = delete_message items; purpose = ConfirmPurpose.delete items });
        }
        else spawn_delete items app

    unfoldable pub start_delete : App W → App W
    unfolding ask_delete selected_items
    start_delete app = ask_delete (selected_items libs (active_panel app)) app

    unfoldable pub start_connect : App W → App W
    unfolding new_form
    start_connect app = record app {
      mode = connecting (new_form libs.default_username (map summary_of app.config.profiles));
    }

    unfoldable pub scan : VfsPath → VfsPath → Location → Location → Vfs W → Vfs W → App W → App W
    unfolding begin_job
    scan src_root dst_root src_location dst_location src dst app =
        begin_job (codes "Scan sync") (codes "Scanning for sync")
          (JobKind.scan_sync src_location dst_location app.next_cell)
          (Task.scans src dst src_root dst_root app.config.general.sync_delete_extraneous
            app.next_cell)
          (record app { cells = at app.next_cell none app.cells; next_cell = app.next_cell + 1 })

    unfoldable pub start_sync : App W → App W
    unfolding resolve scan
    start_sync app =
        let src = active_panel app in
        let dst = inactive_panel app in
        with_backends libs.describe (codes "sync failed: ") app.mode
          (scan src.cwd dst.cwd src.location dst.location)
          (both (resolve app.registry src.location) (resolve app.registry dst.location)) app

    unfoldable pub spawn_copy : List VfsPath → VfsPath → App W → App W
    unfolding resolve begin_job
    spawn_copy items dest_dir app =
        let src_location = (active_panel app).location in
        let dst_location = (inactive_panel app).location in
        with_backends libs.describe (codes "copy failed: ") browsing
          (λ src dst. begin_job (codes "Copy") (codes "Copying") JobKind.file_op (
            Task.copies src dst src_location dst_location items dest_dir
              app.config.general.enable_quic_fast_path))
          (both (resolve app.registry src_location) (resolve app.registry dst_location)) app

    unfoldable pub spawn_move_to_dir : List VfsPath → VfsPath → App W → App W
    unfolding resolve begin_job spawn_move_same_backend same_location
    spawn_move_to_dir items dest_dir app =
        let src_location = (active_panel app).location in
        let dst_location = (inactive_panel app).location in
        if same_location src_location dst_location
        then spawn_move_same_backend src_location (move_pairs libs dest_dir items) app
        else with_backends libs.describe (codes "move failed: ") browsing
            (λ src dst. begin_job (codes "Move") (codes "Moving") JobKind.file_op (
              Task.moves_across src dst src_location dst_location items dest_dir
                app.config.general.enable_quic_fast_path))
            (both (resolve app.registry src_location) (resolve app.registry dst_location)) app
