-- ===== src/App/Undisturbed.antt =====
-- crates/app/src/actions.rs, `handle_job_event`: events of jobs that are not on the screen.

use pfnc.Prelude.{ℕ, ◌≡◌, ◌≢◌, false}
use pfnc.Panel.{PanelState}
use pfnc.Job.Manager.{job_id}
use pfnc.App.{App, Mode, running}

-- The panel, whatever its glyph for the fast path shows.
abbrev pub without_glyph : PanelState → PanelState
without_glyph p = record p { quic_available = false }

-- What the user sees and works with is the same.
pub record SameScreen {W : Type 0} (a b : App W) : Type 0 where
  pub same_mode : b.mode ≡ a.mode
  pub same_status : b.status ≡ a.status
  pub same_left : without_glyph b.left ≡ without_glyph a.left
  pub same_right : without_glyph b.right ≡ without_glyph a.right
  pub same_config : b.config ≡ a.config
  pub same_tasks : b.tasks ≡ a.tasks

-- The progress that is shown, if any, is not that of the job.
abbrev pub IsElsewhere : Mode → ℕ → Type 0
IsElsewhere (running state) id = state.job_id ≢ id
IsElsewhere _ id = Unit
