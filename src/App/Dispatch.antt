-- ===== src/App/Dispatch.antt =====
-- crates/app/src/actions.rs: `handle_key`, and the keys of the dialogs. `none` is a panic.
use mathlib.Core.Option
use pfnc.Prelude.{Option, none, some, [], ◌∷◌, ◌++◌, Str, codes, is_empty, ◌==◌, if◌then◌else◌}
use pfnc.Effect.{Result, ok, err, out_of_fuel, ◌>>=◌}
use pfnc.Vfs.{VfsError}
use pfnc.Keys.{KeyCode, char, esc, enter, backspace, left, right, home, end_key}
use pfnc.Editable.Keys.{TextKey, press}
use pfnc.Connect.{handle_connect_key, FormStep, Submitted, trim}
use pfnc.Job.Manager.{cancel}
use pfnc.Registry.{resolve, given}
use pfnc.App.{
  App, Libs, Mode, browsing, help, confirm, text_input, connecting, running, ConfirmDialog,
  ConfirmPurpose, TextInputPrompt, TextInputPurpose, ProgressState, active_panel, reload,
}
use pfnc.App.Start.{
  spawn_delete, spawn_execute_sync, spawn_copy, spawn_move_to_dir, spawn_move_same_backend,
  spawn_connect,
}
use pfnc.App.Browse.{handle_browsing_key}

abbrev pub mkdir_status :
    {Float : Type 0} → Libs Float → Result VfsError (Unit {0}) → Option Str → Option Str
mkdir_status libs (ok _) old = none
mkdir_status libs (err e) old = some (codes "mkdir failed: " ++ libs.describe e)
mkdir_status libs out_of_fuel old = old

module _ {W : Type 0} where
  unfoldable pub carry_out : ConfirmPurpose → App W → App W
  unfolding spawn_delete spawn_execute_sync
  carry_out (ConfirmPurpose.delete items) app = spawn_delete items app
  carry_out (ConfirmPurpose.sync plan src_location dst_location) app =
      spawn_execute_sync plan src_location dst_location app

  unfoldable pub handle_confirm_key : ConfirmDialog → KeyCode → App W → App W
  unfolding carry_out
  handle_confirm_key dialog (char c) app =
      if c == b'y'
      then carry_out dialog.purpose app
      else if c == b'n'
      then record app { mode = browsing }
      else record app { mode = confirm dialog }
  handle_confirm_key dialog enter app = carry_out dialog.purpose app
  handle_confirm_key dialog esc app = record app { mode = browsing }
  handle_confirm_key dialog _ app = record app { mode = confirm dialog }

  unfoldable pub handle_progress_key : ProgressState → KeyCode → App W → App W
  unfolding cancel
  handle_progress_key state esc app = record app {
    jobs = cancel state.job_id app.jobs;
    mode = running state;
  }
  handle_progress_key state _ app = record app { mode = running state }

  -- The text of a prompt after an editing key.
  unfoldable pub edit_prompt : TextInputPrompt → TextKey → App W → Option (App W)
  unfolding press
  edit_prompt prompt key app =
      Option.map (λ text. record app { mode = text_input (record prompt { text = text }) })
        (press key prompt.text)

  unfoldable pub after_connect : FormStep → App W → App W
  unfolding spawn_connect
  after_connect FormStep.browsing app = record app { mode = browsing }
  after_connect (FormStep.stays form) app = record app { mode = connecting form }
  after_connect (FormStep.submits (Submitted.refused form)) app = record app {
    mode = connecting form;
  }
  after_connect (FormStep.submits (Submitted.connects s)) app = spawn_connect s app

  module _ {Float : Type 0} (libs : Libs Float) where
    unfoldable pub make_directory : Str → App W → App W
    unfolding resolve reload
    make_directory value app =
        let p = active_panel app in
        let (made, w) =
          (given (resolve app.registry p.location) >>= λ vfs.
          vfs.mkdir (libs.paths.join p.cwd value) none)
            app.world in
        record (reload app.active
          (record app { status = mkdir_status libs made app.status; world = w })) {
            mode = browsing;
          }

    unfoldable pub submit_purpose : TextInputPurpose → Str → App W → App W
    unfolding make_directory spawn_copy spawn_move_to_dir spawn_move_same_backend
    submit_purpose TextInputPurpose.mkdir value app = make_directory value app
    submit_purpose (TextInputPurpose.copy_to_dir items) value app = spawn_copy libs items value app
    submit_purpose (TextInputPurpose.move_to_dir items) value app =
        spawn_move_to_dir libs items value app
    submit_purpose (TextInputPurpose.rename_or_move item) value app =
        spawn_move_same_backend (active_panel app).location ((item, value) ∷ []) app

    unfoldable pub submit_text_input : TextInputPrompt → App W → App W
    unfolding submit_purpose
    submit_text_input prompt app =
        let value = trim prompt.text.value in
        if is_empty value
        then record app { mode = browsing }
        else submit_purpose prompt.purpose value app

    unfoldable pub handle_text_input_key : TextInputPrompt → KeyCode → App W → Option (App W)
    unfolding edit_prompt submit_text_input
    handle_text_input_key prompt enter app = some (submit_text_input prompt app)
    handle_text_input_key prompt esc app = some (record app { mode = browsing })
    handle_text_input_key prompt backspace app = edit_prompt prompt TextKey.backspace_key app
    handle_text_input_key prompt left app = edit_prompt prompt TextKey.left app
    handle_text_input_key prompt right app = edit_prompt prompt TextKey.right app
    handle_text_input_key prompt home app = edit_prompt prompt TextKey.home app
    handle_text_input_key prompt end_key app = edit_prompt prompt TextKey.end_key app
    handle_text_input_key prompt (char c) app = edit_prompt prompt (TextKey.char c) app
    handle_text_input_key prompt _ app = some (record app { mode = text_input prompt })

    -- `app` is what `mem::replace` left behind: its mode is `browsing`.
    unfoldable pub dispatch : Mode → KeyCode → App W → Option (App W)
    unfolding handle_browsing_key handle_confirm_key handle_text_input_key handle_connect_key
        after_connect handle_progress_key
    dispatch browsing key app = some (handle_browsing_key libs key app)
    dispatch (confirm dialog) key app = some (handle_confirm_key dialog key app)
    dispatch (text_input prompt) key app = handle_text_input_key prompt key app
    dispatch (connecting form) key app =
        Option.map (λ step. after_connect step app) (handle_connect_key key form)
    dispatch (running state) key app = some (handle_progress_key state key app)
    dispatch help key app = some app

    unfoldable pub handle_key : KeyCode → App W → Option (App W)
    unfolding dispatch
    handle_key key app = dispatch app.mode key (record app { mode = browsing })
