-- ===== src/App/Frame/Dialogs.antt =====
-- crates/app/src/actions.rs: the keys of the dialogs, and `handle_key`, by the rules of what every key keeps.
use mathlib.Core.Option
use pfnc.Prelude.{
  ◌≤◌, length, ◌≡◌, refl, Bool, true, false, Option, none, some, List, Str, codes, ◌==◌,
}
use pfnc.Vfs.{VfsPath, Location, same_location}
use pfnc.Vfs.Interface.{Vfs}
use pfnc.Job.Sync.{SyncPlan}
use pfnc.Keys.{
  KeyCode, f_key, char, esc, enter, tab, backspace, left, right, up, down, home, end_key, page_up,
  page_down, unnamed,
}
use pfnc.Connect.{FormStep, Submitted, handle_connect_key}
use pfnc.Connect.Form.{LeavesWhole}
use pfnc.Editable.Keys.{TextKey, press}
use pfnc.Registry.{resolve}
use pfnc.App.{
  App, Libs, Mode, browsing, help, confirm, text_input, connecting, running, ConfirmDialog, JobKind,
  ConfirmPurpose, TextInputPrompt, TextInputPurpose, ProgressState, Task, active_panel,
  inactive_panel, begin_job,
}
use pfnc.App.Modes.{IsWholeMode, HasRoomMode, HasSpace, press-InText, connect_key-LeavesWhole}
use pfnc.App.Start.{
  both, spawn_copy, spawn_move_to_dir, spawn_move_same_backend, spawn_connect, spawn_delete,
  spawn_execute_sync,
}
use pfnc.App.Dispatch.{
  carry_out, handle_confirm_key, handle_progress_key, edit_prompt, after_connect, make_directory,
  submit_purpose, submit_text_input, handle_text_input_key, dispatch, handle_key,
}
use pfnc.App.Frame.{Rules, Outcome, chosen, chosen_by, backends, handle_browsing_key_keeps}

-- A prompt that an editing key can change.
abbrev IsReady : TextInputPrompt → Type 0
IsReady prompt = prompt.text.cursor ≤ length prompt.text.value × HasSpace prompt.text

-- The keys that carry out what a dialog asks.
abbrev pub confirms : KeyCode → Bool
confirms (char c) = c == b'y'
confirms enter = true
confirms _ = false

module _ {W Float : Type 0} (libs : Libs Float) (Q : Type 0) (P : App W → Type 0)
    (rules : Rules Q P) where
  -- The keys of the dialogs.
  confirm_key_keeps :
      (dialog : ConfirmDialog) (key : KeyCode) (app : App W)
      → (confirms key ≡ true → P (carry_out dialog.purpose app))
      → P app
      → P (handle_confirm_key dialog key app)
  unfolding handle_confirm_key
  confirm_key_keeps dialog (char c) app done p = chosen_by P (c == b'y') done (λ _.
      chosen P (c == b'n') (rules.sets_mode _ app (λ _ _. tt) p)
        (rules.sets_mode _ app (λ _ _. tt) p))
  confirm_key_keeps dialog enter app done p = done refl
  confirm_key_keeps dialog esc app done p = rules.sets_mode _ app (λ _ _. tt) p
  confirm_key_keeps dialog tab app done p = rules.sets_mode _ app (λ _ _. tt) p
  confirm_key_keeps dialog backspace app done p = rules.sets_mode _ app (λ _ _. tt) p
  confirm_key_keeps dialog left app done p = rules.sets_mode _ app (λ _ _. tt) p
  confirm_key_keeps dialog right app done p = rules.sets_mode _ app (λ _ _. tt) p
  confirm_key_keeps dialog up app done p = rules.sets_mode _ app (λ _ _. tt) p
  confirm_key_keeps dialog down app done p = rules.sets_mode _ app (λ _ _. tt) p
  confirm_key_keeps dialog home app done p = rules.sets_mode _ app (λ _ _. tt) p
  confirm_key_keeps dialog end_key app done p = rules.sets_mode _ app (λ _ _. tt) p
  confirm_key_keeps dialog page_up app done p = rules.sets_mode _ app (λ _ _. tt) p
  confirm_key_keeps dialog page_down app done p = rules.sets_mode _ app (λ _ _. tt) p
  confirm_key_keeps dialog (f_key _) app done p = rules.sets_mode _ app (λ _ _. tt) p
  confirm_key_keeps dialog (unnamed _) app done p = rules.sets_mode _ app (λ _ _. tt) p

  progress_key_keeps :
      (state : ProgressState) (key : KeyCode) (app : App W)
      → P app
      → P (handle_progress_key state key app)
  unfolding handle_progress_key
  progress_key_keeps state esc app p = rules.cancels _ _ app (λ _ _. tt) p
  progress_key_keeps state enter app p = rules.sets_mode _ app (λ _ _. tt) p
  progress_key_keeps state tab app p = rules.sets_mode _ app (λ _ _. tt) p
  progress_key_keeps state backspace app p = rules.sets_mode _ app (λ _ _. tt) p
  progress_key_keeps state left app p = rules.sets_mode _ app (λ _ _. tt) p
  progress_key_keeps state right app p = rules.sets_mode _ app (λ _ _. tt) p
  progress_key_keeps state up app p = rules.sets_mode _ app (λ _ _. tt) p
  progress_key_keeps state down app p = rules.sets_mode _ app (λ _ _. tt) p
  progress_key_keeps state home app p = rules.sets_mode _ app (λ _ _. tt) p
  progress_key_keeps state end_key app p = rules.sets_mode _ app (λ _ _. tt) p
  progress_key_keeps state page_up app p = rules.sets_mode _ app (λ _ _. tt) p
  progress_key_keeps state page_down app p = rules.sets_mode _ app (λ _ _. tt) p
  progress_key_keeps state (f_key _) app p = rules.sets_mode _ app (λ _ _. tt) p
  progress_key_keeps state (unnamed _) app p = rules.sets_mode _ app (λ _ _. tt) p
  progress_key_keeps state (char _) app p = rules.sets_mode _ app (λ _ _. tt) p

  mapped :
      {A : Type 0} (o : Option A) (f : A → App W)
      → ((a : A) → o ≡ some a → P (f a))
      → Outcome P (Option.map f o)
  mapped none f k = tt
  mapped (some a) f k = k a refl

  after_connect_keeps :
      (step : FormStep) (app : App W) → (Q → LeavesWhole step) → P app → P (after_connect step app)
  unfolding after_connect spawn_connect
  after_connect_keeps FormStep.browsing app whole p = rules.sets_mode _ app (λ _ _. tt) p
  after_connect_keeps (FormStep.stays form) app whole p = rules.sets_mode _ app (λ q _. whole q) p
  after_connect_keeps (FormStep.submits (Submitted.refused form)) app whole p =
      rules.sets_mode _ app (λ q _. whole q) p
  after_connect_keeps (FormStep.submits (Submitted.connects s)) app whole p =
      rules.begins _ _ _ _ app tt p

  -- Such a move, begun, leaves `P`.
  abbrev pub Moves : List VfsPath → Type 0
  Moves items =
      (s d : Vfs W) (src dst : Location) (value : VfsPath) (fast : Bool) (a : App W)
      → P a
      → P (
          begin_job (codes "Move") (codes "Moving") JobKind.file_op
            (Task.moves_across s d src dst items value fast) a)

  submit_purpose_keeps :
      (purpose : TextInputPurpose) (value : Str) (app : App W)
      → ((items : List VfsPath) → purpose ≡ TextInputPurpose.move_to_dir items → Moves items)
      → P app
      → P (submit_purpose libs purpose value app)
  unfolding submit_purpose make_directory spawn_copy spawn_move_to_dir spawn_move_same_backend
  submit_purpose_keeps TextInputPurpose.mkdir value app moved p =
      rules.sets_mode browsing _ (λ _ _. tt) (rules.reloads app.active _ (rules.acts _ _ app p))
  submit_purpose_keeps (TextInputPurpose.copy_to_dir items) value app moved p =
      let src = (active_panel app).location in
      let dst = (inactive_panel app).location in
      backends libs Q P rules (codes "copy failed: ") browsing _
        (both (resolve app.registry src) (resolve app.registry dst)) app
        (λ s d a q.
          rules.begins (codes "Copy") (codes "Copying") JobKind.file_op
            (Task.copies s d src dst items value app.config.general.enable_quic_fast_path) a tt q)
        (λ _ _. tt) p
  submit_purpose_keeps (TextInputPurpose.move_to_dir items) value app moved p =
      let src = (active_panel app).location in
      let dst = (inactive_panel app).location in
      chosen P (same_location src dst) (rules.begins _ _ _ _ app tt p) (
        backends libs Q P rules (codes "move failed: ") browsing _
          (both (resolve app.registry src) (resolve app.registry dst)) app
          (λ s d a q. moved items refl s d src dst value _ a q) (λ _ _. tt) p)
  submit_purpose_keeps (TextInputPurpose.rename_or_move item) value app moved p =
      rules.begins _ _ _ _ app tt p

  edit_prompt_keeps :
      (prompt : TextInputPrompt) (key : TextKey) (app : App W)
      → (Q → IsReady prompt)
      → P app
      → Outcome P (edit_prompt prompt key app)
  unfolding edit_prompt
  edit_prompt_keeps prompt key app ready p = mapped (press key prompt.text) _ (λ t e.
      rules.sets_mode _ app (λ q _. press-InText key prompt.text t e (ready q).0 (ready q).1) p)

  text_input_key_keeps :
      (prompt : TextInputPrompt) (key : KeyCode) (app : App W)
      → (Q → IsReady prompt)
      → ((items : List VfsPath)
          → prompt.purpose ≡ TextInputPurpose.move_to_dir items
          → key ≡ enter
          → Moves items)
      → P app
      → Outcome P (handle_text_input_key libs prompt key app)
  unfolding handle_text_input_key submit_text_input
  text_input_key_keeps prompt enter app ready moved p =
      chosen P _ (rules.sets_mode _ app (λ _ _. tt) p)
        (submit_purpose_keeps _ _ app (λ items same. moved items same refl) p)
  text_input_key_keeps prompt esc app ready moved p = rules.sets_mode _ app (λ _ _. tt) p
  text_input_key_keeps prompt backspace app ready moved p =
      edit_prompt_keeps prompt TextKey.backspace_key app ready p
  text_input_key_keeps prompt left app ready moved p =
      edit_prompt_keeps prompt TextKey.left app ready p
  text_input_key_keeps prompt right app ready moved p =
      edit_prompt_keeps prompt TextKey.right app ready p
  text_input_key_keeps prompt home app ready moved p =
      edit_prompt_keeps prompt TextKey.home app ready p
  text_input_key_keeps prompt end_key app ready moved p =
      edit_prompt_keeps prompt TextKey.end_key app ready p
  text_input_key_keeps prompt (char c) app ready moved p =
      edit_prompt_keeps prompt (TextKey.char c) app ready p
  text_input_key_keeps prompt tab app ready moved p = rules.sets_mode _ app (λ q _. (ready q).0) p
  text_input_key_keeps prompt up app ready moved p = rules.sets_mode _ app (λ q _. (ready q).0) p
  text_input_key_keeps prompt down app ready moved p = rules.sets_mode _ app (λ q _. (ready q).0) p
  text_input_key_keeps prompt page_up app ready moved p =
      rules.sets_mode _ app (λ q _. (ready q).0) p
  text_input_key_keeps prompt page_down app ready moved p =
      rules.sets_mode _ app (λ q _. (ready q).0) p
  text_input_key_keeps prompt (f_key _) app ready moved p =
      rules.sets_mode _ app (λ q _. (ready q).0) p
  text_input_key_keeps prompt (unnamed _) app ready moved p =
      rules.sets_mode _ app (λ q _. (ready q).0) p

  carry_out_keeps :
      (purpose : ConfirmPurpose) (app : App W)
      → ((items : List VfsPath)
          → purpose ≡ ConfirmPurpose.delete items
          → P (spawn_delete items app))
      → ((plan : SyncPlan) (src dst : Location)
          → purpose ≡ ConfirmPurpose.sync plan src dst
          → P (spawn_execute_sync plan src dst app))
      → P app
      → P (carry_out purpose app)
  unfolding carry_out
  carry_out_keeps (ConfirmPurpose.delete items) app deletes syncs p = deletes items refl
  carry_out_keeps (ConfirmPurpose.sync plan src dst) app deletes syncs p = syncs plan src dst refl

  -- What the key leaves, if the jobs that remove something leave it too: a deletion that need not be confirmed, or
  -- that this key confirms, a sync that it confirms, and a move to another backend that it submits.
  pub handle_key_keeps :
      (key : KeyCode) (app : App W)
      → ((items : List VfsPath)
          → app.mode ≡ browsing
          → app.config.general.confirm_delete ≡ false
          → P (spawn_delete items (record app { mode = browsing })))
      → ((items : List VfsPath) (dialog : ConfirmDialog)
          → app.mode ≡ confirm dialog
          → dialog.purpose ≡ ConfirmPurpose.delete items
          → confirms key ≡ true
          → P (spawn_delete items (record app { mode = browsing })))
      → ((plan : SyncPlan) (src dst : Location) (dialog : ConfirmDialog)
          → app.mode ≡ confirm dialog
          → dialog.purpose ≡ ConfirmPurpose.sync plan src dst
          → confirms key ≡ true
          → P (spawn_execute_sync plan src dst (record app { mode = browsing })))
      → ((items : List VfsPath) (prompt : TextInputPrompt)
          → app.mode ≡ text_input prompt
          → prompt.purpose ≡ TextInputPurpose.move_to_dir items
          → key ≡ enter
          → Moves items)
      → (Q → IsWholeMode app.mode × HasRoomMode app.mode)
      → P app
      → Outcome P (handle_key libs key app)
  unfolding handle_key
  handle_key_keeps key app unasked asked syncs moved ready p = dispatched app.mode refl ready
    where
      start : P (record app { mode = browsing })
      start = rules.sets_mode browsing app (λ _ _. tt) p

      dispatched :
          (m : Mode)
          → app.mode ≡ m
          → (Q → IsWholeMode m × HasRoomMode m)
          → Outcome P (dispatch libs m key (record app { mode = browsing }))
      dispatched browsing e fit =
          handle_browsing_key_keeps libs Q P rules key (record app { mode = browsing })
            (λ items unset. unasked items e unset) start
      dispatched (confirm dialog) e fit =
          confirm_key_keeps dialog key (record app { mode = browsing })
            (λ yes_key.
              carry_out_keeps dialog.purpose (record app { mode = browsing })
                (λ items same. asked items dialog e same yes_key)
                (λ plan src dst same. syncs plan src dst dialog e same yes_key) start)
            start
      dispatched (text_input prompt) e fit =
          text_input_key_keeps prompt key (record app { mode = browsing }) fit
            (λ items same pressed. moved items prompt e same pressed) start
      dispatched (connecting form) e fit = mapped (handle_connect_key key form) _ (λ step e.
          after_connect_keeps step (record app { mode = browsing })
            (λ q. connect_key-LeavesWhole key form step e (fit q).0 (fit q).1) start)
      dispatched (running state) e fit =
          progress_key_keeps state key (record app { mode = browsing }) start
      dispatched help e fit = start
