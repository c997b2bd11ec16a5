-- ===== src/App/Frame.antt =====
-- crates/app/src/actions.rs, `handle_key`: the rules for what every key keeps.
pub mod Dialogs
pub mod Edits
pub mod Reactions
use mathlib.Core.Option
use pfnc.Prelude.{
  ℕ, ◌+◌, ◌≡◌, ◌⊎◌, inl, inr, refl, Bool, true, false, Option, none, some, List, [], ◌∷◌, Str,
  str_eq, codes, is_empty, ◌==◌, if◌then◌else◌, Bool-cases, length,
}
use pfnc.Prelude.Int.{ℤ, pos, negsuc}
use pfnc.Effect.{Result, ok, err, out_of_fuel}
use pfnc.Vfs.{VfsPath, VfsError, Location, local, remote, archive, EntryMeta, is_dir, same_location}
use pfnc.Vfs.Interface.{Vfs}
use pfnc.Keys.{
  KeyCode, f_key, char, esc, enter, tab, backspace, left, right, up, down, home, end_key, page_up,
  page_down, unnamed,
}
use pfnc.Panel.{PanelState, IsValid, move_cursor, cursor_entry}
use pfnc.Panel.Cursor.{move_cursor-IsValid, select_by_name-IsValid}
use pfnc.Connect.{FormStep, Submitted}
use pfnc.Keymap.{action_for}
use pfnc.Editable.Keys.{TextKey, press}
use pfnc.Job.Sync.{SyncPlan}
use pfnc.Job.Manager.{cancel, at}
use pfnc.Registry.{resolve}
use pfnc.App.{
  App, Libs, Mode, browsing, help, confirm, text_input, connecting, running, ConfirmDialog, JobKind,
  ConfirmPurpose, TextInputPrompt, TextInputPurpose, new_prompt, ProgressState, Task, EditTarget,
  PaneSide, active_panel, inactive_panel, change_active, other_side, reload, begin_job,
}
use pfnc.App.Modes.{IsWholeMode, new_prompt-IsWholeMode, new_form-IsWhole}
use pfnc.App.Start.{
  start_open_archive, start_copy, start_move, start_edit, start_mkdir, start_delete, start_connect,
  start_sync, with_backends, both, ask_copy, ask_rename, ask_delete, request_edit, scan, spawn_copy,
  spawn_move_to_dir, spawn_move_same_backend, spawn_connect, spawn_delete, spawn_execute_sync,
}
use pfnc.App.Browse.{
  placed, neg_isize, page_size, go_to, leave_to, select_named, toggle_entry, toggle_selection,
  open_entry, descend, ascend_from, ascend_out, ascend, run_action, fixed_key, after_action,
  handle_browsing_key,
}
use pfnc.App.Dispatch.{
  carry_out, handle_confirm_key, handle_progress_key, edit_prompt, after_connect, make_directory,
  submit_purpose, submit_text_input, handle_text_input_key, dispatch, handle_key,
}

-- A job that removes nothing from where it is: it neither deletes, nor moves to another backend, nor synchronises.
abbrev pub DeletesNothing : {W : Type 0} → Task W → Type 0
DeletesNothing (Task.deletes _ _) = ⊥
DeletesNothing (Task.moves_across _ _ _ _ _ _ _) = ⊥
DeletesNothing (Task.syncs _ _ _ _) = ⊥
DeletesNothing _ = Unit

-- What the steps of a key keep, where `Q` says that the dialogs are in order.
pub record Rules {W : Type 0} (Q : Type 0) (P : App W → Type 0) : Type 0 where
  pub sets_mode :
      (m : Mode) (app : App W)
      → (Q → IsWholeMode app.mode → IsWholeMode m)
      → P app
      → P (record app { mode = m })
  pub sets_status :
      (s : Option Str) (m : Mode) (app : App W)
      → (Q → IsWholeMode app.mode → IsWholeMode m)
      → P app
      → P (record app { status = s; mode = m })
  pub quits : (app : App W) → P app → P (record app { should_quit = true })
  pub switches : (side : PaneSide) (app : App W) → P app → P (record app { active = side })
  pub requests : (t : Option EditTarget) (app : App W) → P app → P (record app { edit_request = t })
  pub cancels :
      (id : ℕ) (m : Mode) (app : App W)
      → (Q → IsWholeMode app.mode → IsWholeMode m)
      → P app
      → P (record app { jobs = cancel id app.jobs; mode = m })
  pub changes :
      (f : PanelState → PanelState) (app : App W)
      → ((p : PanelState) → IsValid p → IsValid (f p))
      → P app
      → P (change_active f app)
  pub reloads : (side : PaneSide) (app : App W) → P app → P (reload side app)
  pub acts :
      (s : Option Str) (w : W) (app : App W) → P app → P (record app { status = s; world = w })
  pub allocates :
      (cells : ℕ → Option SyncPlan) (n : ℕ) (app : App W)
      → P app
      → P (record app { cells = cells; next_cell = n })
  pub begins :
      (label title : Str) (kind : JobKind) (task : Task W) (app : App W)
      → DeletesNothing task
      → P app
      → P (begin_job label title kind task app)

pub chosen : {A : Type 0} (P : A → Type 0) (b : Bool) {x y : A} → P x → P y → P (if b then x else y)
chosen P true p q = p
chosen P false p q = q

pub chosen_by :
    {A : Type 0} (P : A → Type 0) (b : Bool) {x y : A}
    → (b ≡ true → P x)
    → (b ≡ false → P y)
    → P (if b then x else y)
chosen_by P true p q = p refl
chosen_by P false p q = q refl

-- The result of a step that may panic, or do nothing.
abbrev pub Outcome : {A : Type 0} → (A → Type 0) → Option A → Type 0
Outcome P none = Unit
Outcome P (some a) = P a

module _ {W Float : Type 0} (libs : Libs Float) (Q : Type 0) (P : App W → Type 0)
    (rules : Rules Q P) where
  pub backends :
      (what : Str) (mode : Mode) (begin : Vfs W → Vfs W → App W → App W)
      (r : Result VfsError (Vfs W × Vfs W)) (app : App W)
      → ((src dst : Vfs W) (a : App W) → P a → P (begin src dst a))
      → (Q → IsWholeMode app.mode → IsWholeMode mode)
      → P app
      → P (with_backends libs.describe what mode begin r app)
  backends what mode begin (ok (src, dst)) app begins fits p = begins src dst app p
  backends what mode begin (err e) app begins fits p = rules.sets_status _ mode app fits p
  backends what mode begin out_of_fuel app begins fits p = rules.sets_mode mode app fits p

  prompts :
      (title value : Str) (purpose : TextInputPurpose) (app : App W)
      → P app
      → P (record app { mode = text_input (new_prompt title value purpose) })
  prompts title value purpose app p =
      rules.sets_mode _ app (λ _ _. new_prompt-IsWholeMode title value purpose) p

  begun_delete :
      (items : List VfsPath) (app : App W)
      → (app.config.general.confirm_delete ≡ false → P (spawn_delete items app))
      → P app
      → P (ask_delete libs items app)
  unfolding ask_delete
  begun_delete items app asked p = chosen P (is_empty items) p (
      chosen_by P app.config.general.confirm_delete (λ _. rules.sets_mode _ app (λ _ _. tt) p)
        asked)

  start_edit_keeps : (o : Option EntryMeta) (app : App W) → P app → P (request_edit o app)
  start_edit_keeps none app p = p
  start_edit_keeps (some e) app p = chosen P (is_dir e.kind) p (rules.requests _ app p)

  ask_rename_keeps : (o : Option EntryMeta) (app : App W) → P app → P (ask_rename libs o app)
  ask_rename_keeps none app p = p
  ask_rename_keeps (some e) app p = prompts _ _ _ app p

  scan_keeps :
      (src_root dst_root : VfsPath) (src_location dst_location : Location) (src dst : Vfs W)
      (app : App W)
      → P app
      → P (scan libs src_root dst_root src_location dst_location src dst app)
  unfolding scan
  scan_keeps src_root dst_root src_location dst_location src dst app p =
      rules.begins (codes "Scan sync") (codes "Scanning for sync")
        (JobKind.scan_sync src_location dst_location app.next_cell)
        (Task.scans src dst src_root dst_root app.config.general.sync_delete_extraneous
          app.next_cell)
        _ tt (rules.allocates (at app.next_cell none app.cells) (app.next_cell + 1) app p)

  start_sync_keeps : (app : App W) → P app → P (start_sync libs app)
  unfolding start_sync
  start_sync_keeps app p =
      let src = active_panel app in
      let dst = inactive_panel app in
      backends (codes "sync failed: ") app.mode
        (scan libs src.cwd dst.cwd src.location dst.location)
        (both (resolve app.registry src.location) (resolve app.registry dst.location)) app
        (scan_keeps src.cwd dst.cwd src.location dst.location) (λ _ whole. whole) p

  go_to_keeps : (l : Location) (cwd : VfsPath) (app : App W) → P app → P (go_to l cwd app)
  unfolding go_to
  go_to_keeps l cwd app p = rules.reloads app.active _ (
      rules.changes (placed l cwd) app
        (λ q v. record { on_entry = inl refl; listed = v.listed; scrolled = v.scrolled }) p)

  select_named-IsValid : (o : Option Str) (p : PanelState) → IsValid p → IsValid (select_named o p)
  unfolding select_named
  select_named-IsValid none p v = v
  select_named-IsValid (some name) p v = select_by_name-IsValid name p v

  leave_to_keeps :
      (l : Location) (cwd : VfsPath) (name : Option Str) (app : App W)
      → P app
      → P (leave_to l cwd name app)
  unfolding leave_to
  leave_to_keeps l cwd name app p =
      rules.changes (select_named name) _ (select_named-IsValid name) (go_to_keeps l cwd app p)

  open_entry_keeps : (o : Option EntryMeta) (app : App W) → P app → P (open_entry libs o app)
  unfolding open_entry start_open_archive
  open_entry_keeps none app p = p
  open_entry_keeps (some e) app p =
      chosen P (is_dir e.kind) (go_to_keeps _ _ app p)
        (chosen P _ (rules.begins _ _ _ _ app tt p) p)

  ascend_from_keeps : (o : Option VfsPath) (app : App W) → P app → P (ascend_from libs o app)
  unfolding ascend_from
  ascend_from_keeps none app p = p
  ascend_from_keeps (some parent) app p = chosen P _ p (leave_to_keeps _ _ _ app p)

  ascend_out_keeps : (l : Location) (app : App W) → P app → P (ascend_out libs l app)
  unfolding ascend_out
  ascend_out_keeps local app p = ascend_from_keeps _ app p
  ascend_out_keeps (remote _) app p = ascend_from_keeps _ app p
  ascend_out_keeps (archive base path) app p = leave_to_keeps _ _ _ app p

  ascend_keeps : (app : App W) → P app → P (ascend libs app)
  unfolding ascend
  ascend_keeps app p = chosen P _ (ascend_out_keeps _ app p) (ascend_from_keeps _ app p)

  toggle_entry-IsValid :
      (o : Option EntryMeta) (p : PanelState) → IsValid p → IsValid (toggle_entry o p)
  unfolding toggle_entry
  toggle_entry-IsValid none p v = v
  toggle_entry-IsValid (some e) p v =
      move_cursor-IsValid (pos 1) _
        (record { on_entry = v.on_entry; listed = v.listed; scrolled = v.scrolled })

  moves : (z : ℤ) (app : App W) → P app → P (change_active (move_cursor z) app)
  moves z app p = rules.changes (move_cursor z) app (move_cursor-IsValid z) p

  fixed_key_keeps : (key : KeyCode) (app : App W) → P app → P (fixed_key libs key app)
  unfolding fixed_key toggle_selection descend
  fixed_key_keeps (char c) app p = chosen P (c == b'q') (rules.quits app p) (
      chosen P (c == b'k') (moves (negsuc 0) app p) (
        chosen P (c == b'j') (moves (pos 1) app p) (
          chosen P (c == b' ')
            (rules.changes (λ q. toggle_entry (cursor_entry q) q) app
              (λ q v. toggle_entry-IsValid (cursor_entry q) q v) p)
            p)))
  fixed_key_keeps esc app p = rules.quits app p
  fixed_key_keeps tab app p = rules.switches _ app p
  fixed_key_keeps up app p = moves (negsuc 0) app p
  fixed_key_keeps down app p = moves (pos 1) app p
  fixed_key_keeps page_up app p =
      rules.changes (λ q. move_cursor (neg_isize (page_size q)) q) app
        (λ q. move_cursor-IsValid _ q) p
  fixed_key_keeps page_down app p =
      rules.changes (λ q. move_cursor (page_size q) q) app (λ q. move_cursor-IsValid _ q) p
  fixed_key_keeps enter app p = open_entry_keeps _ app p
  fixed_key_keeps backspace app p = ascend_keeps app p
  fixed_key_keeps left app p = ascend_keeps app p
  fixed_key_keeps right app p = p
  fixed_key_keeps home app p = p
  fixed_key_keeps end_key app p = p
  fixed_key_keeps (f_key _) app p = p
  fixed_key_keeps (unnamed _) app p = p

  -- What an action keeps, if what it deletes without asking keeps it too.
  run_action_keeps :
      (action : Str) (app : App W)
      → ((items : List VfsPath)
          → app.config.general.confirm_delete ≡ false
          → P (spawn_delete items app))
      → P app
      → Outcome P (run_action libs action app)
  unfolding run_action start_edit start_copy start_move start_mkdir start_delete start_connect
  run_action_keeps action app unasked p =
      chosen (Outcome P) (str_eq action (codes "quit")) {x = some _} (rules.quits app p) (
        chosen (Outcome P) (str_eq action (codes "edit")) {x = some _} (start_edit_keeps _ app p) (
          chosen (Outcome P) (str_eq action (codes "copy")) {x = some _}
            (chosen P _ p (prompts _ _ _ app p))
            (chosen (Outcome P) (str_eq action (codes "move")) {x = some _}
              (chosen P _ (ask_rename_keeps _ app p) (prompts _ _ _ app p))
              (chosen (Outcome P) (str_eq action (codes "mkdir")) {x = some _} (prompts _ _ _ app p)
                (chosen (Outcome P) (str_eq action (codes "delete")) {x = some _}
                  (begun_delete _ app (unasked _) p)
                  (chosen (Outcome P) (str_eq action (codes "connect")) {x = some _}
                    (rules.sets_mode _ app (λ _ _. new_form-IsWhole _ _) p)
                    (chosen (Outcome P) (str_eq action (codes "sync")) {x = some _}
                      (start_sync_keeps app p)
                      (chosen (Outcome P) (str_eq action (codes "help")) {x = some _} {y = none}
                        (rules.sets_mode _ app (λ _ _. tt) p) tt))))))))

  after_action_keeps :
      (key : KeyCode) (o : Option (App W)) (app : App W)
      → Outcome P o
      → P app
      → P (after_action libs key o app)
  unfolding after_action
  after_action_keeps key none app o p = fixed_key_keeps key app p
  after_action_keeps key (some app') app o p = o

  pub handle_browsing_key_keeps :
      (key : KeyCode) (app : App W)
      → ((items : List VfsPath)
          → app.config.general.confirm_delete ≡ false
          → P (spawn_delete items app))
      → P app
      → P (handle_browsing_key libs key app)
  unfolding handle_browsing_key Option.bind
  handle_browsing_key_keeps key app unasked p =
      after_action_keeps key _ app
        (bound (action_for libs.bindings_order app.keymap key)
          (λ action. run_action_keeps action app unasked p))
        p
    where
      bound :
          (o : Option Str)
          → ((action : Str) → Outcome P (run_action libs action app))
          → Outcome P (Option.bind o λ action. run_action libs action app)
      bound none k = tt
      bound (some action) k = k action
