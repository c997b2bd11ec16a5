-- ===== src/App/Deletes.antt =====
-- crates/app/src/actions.rs: when a key starts a job that deletes.

use pfnc.Prelude.{ℕ, ◌≡◌, ◌⊎◌, true, false, some, List}
use pfnc.Vfs.{VfsPath}
use pfnc.Keys.{KeyCode, enter}
use pfnc.App.{
  App, browsing, confirm, text_input, TextInputPrompt, TextInputPurpose, ConfirmDialog,
  ConfirmPurpose, Task, active_panel,
}
use pfnc.App.Frame.Dialogs.{confirms}

-- The user was asked about these items and said so, or has turned the question off.
pub data Approved {W : Type 0} (app : App W) (key : KeyCode) (items : List VfsPath) : Type 0 where
  not_asked :
      app.mode ≡ browsing → app.config.general.confirm_delete ≡ false → Approved app key items
  answered :
      (dialog : ConfirmDialog)
      → app.mode ≡ confirm dialog
      → dialog.purpose ≡ ConfirmPurpose.delete items
      → confirms key ≡ true
      → Approved app key items

-- What may be started: a deletion of what was approved in the active panel, a move of what the dialog was opened for,
-- the plan that the user was shown, and every job that removes nothing from where it is.
abbrev pub Allowed : {W : Type 0} → App W → KeyCode → Task W → Type 0
Allowed app key (Task.deletes l items) = (l ≡ (active_panel app).location) × Approved app key items
Allowed app key (Task.moves_across _ _ _ _ items _ _) =
    (prompt : TextInputPrompt) × (app.mode ≡ text_input prompt)
    × (prompt.purpose ≡ TextInputPurpose.move_to_dir items)
    × (key ≡ enter)
Allowed app key (Task.syncs src dst plan _) =
    (dialog : ConfirmDialog) × (app.mode ≡ confirm dialog)
    × (dialog.purpose ≡ ConfirmPurpose.sync plan src dst)
    × (confirms key ≡ true)
Allowed app key _ = Unit {0}

-- Each job in `a` was there in `app`, or may be started.
abbrev pub DeletesApproved : {W : Type 0} → App W → KeyCode → App W → Type 0
DeletesApproved {W} app key a =
    (id : ℕ) (task : Task W)
    → a.tasks id ≡ some task
    → (app.tasks id ≡ some task) ⊎ Allowed app key task
