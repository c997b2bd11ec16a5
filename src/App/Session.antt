-- ===== src/App/Session.antt =====
-- crates/app/src/app.rs: the start of the program and what it keeps for the next one. `is_dir` is `Path::is_dir`.
use mathlib.Core.Option
use pfnc.Prelude.{Bool, false, Option, none, some, List, [], Str, if◌then◌else◌}
use pfnc.Vfs.{VfsPath, local, remote, archive}
use pfnc.Vfs.Interface.{Vfs}
use pfnc.Panel.{PanelState}
use pfnc.Panel
use pfnc.Keys.{KeyCode}
use pfnc.Keymap.{from_overrides}
use pfnc.Job.Manager.{new_manager}
use pfnc.Config.{Config, PanelSessionConfig, PanelLocationConfig, binding_of, default_config}
use pfnc.Registry.{new_registry}
use pfnc.App.{App, browsing, left_side, reload_both}

unfoldable pub panel_session_config : PanelState → Option PanelSessionConfig
panel_session_config p = elim p.location [
  | local ↦ some (record { location = PanelLocationConfig.local; cwd = p.cwd })
  | remote _ ↦ none
  | archive _ _ ↦ none
]

abbrev pub as_local : PanelLocationConfig → VfsPath → Option VfsPath
as_local PanelLocationConfig.local cwd = some cwd
as_local (PanelLocationConfig.remote _) cwd = none

abbrev pub if_dir : (VfsPath → Bool) → VfsPath → Option VfsPath
if_dir is_dir path = if is_dir path then some path else none

unfoldable pub restorable_local_cwd : (VfsPath → Bool) → Option PanelSessionConfig → Option VfsPath
restorable_local_cwd is_dir saved =
    Option.bind saved λ s. Option.bind (as_local s.location s.cwd) (if_dir is_dir)

module _ {W : Type 0} where
  -- The program before its first listings.
  unfoldable pub unlisted_app :
      Vfs W → W → Config → VfsPath → VfsPath → List (Str × KeyCode) → App W
  unfolding Panel.new
  unlisted_app local_vfs w config left_start right_start keymap = record {
    registry = new_registry local_vfs;
    left = Panel.new local left_start;
    right = Panel.new local right_start;
    active = left_side;
    mode = browsing;
    jobs = new_manager;
    background_jobs = [];
    status = none;
    should_quit = false;
    edit_request = none;
    keymap = keymap;
    config = config;
    tasks = λ _. none;
    cells = λ _. none;
    next_cell = 0;
    world = w;
  }

  unfoldable pub start_at : Vfs W → W → Config → VfsPath → VfsPath → List (Str × KeyCode) → App W
  unfolding unlisted_app reload_both
  start_at local_vfs w config left_start right_start keymap =
      reload_both (unlisted_app local_vfs w config left_start right_start keymap)

  -- `none` is a panic of the keymap.
  unfoldable pub new_with_config : (VfsPath → Bool) → Vfs W → W → Config → VfsPath → Option (App W)
  unfolding from_overrides restorable_local_cwd start_at
  new_with_config is_dir local_vfs w config fallback_dir =
      Option.map
        (start_at local_vfs w config
          (Option.get_or (restorable_local_cwd is_dir config.session.left) fallback_dir)
          (Option.get_or (restorable_local_cwd is_dir config.session.right) fallback_dir))
        (from_overrides (binding_of config.keybindings))

  unfoldable pub new_app : (VfsPath → Bool) → Vfs W → W → VfsPath → Option (App W)
  unfolding new_with_config
  new_app is_dir local_vfs w start_dir = new_with_config is_dir local_vfs w default_config start_dir

  unfoldable pub sync_session_into_config : App W → App W
  unfolding panel_session_config
  sync_session_into_config app = record app {
    config = record (app.config) {
      session = record {
        left = panel_session_config app.left;
        right = panel_session_config app.right;
      };
    };
  }
