-- ===== src/Main/Start.antt =====
-- crates/app/src/main.rs and app.rs: the program at its start.
use mathlib.Core.Option
use mathlib.Core.Option.{some-injective}
use pfnc.Prelude.{◌≡◌, refl, subst, Bool, Option, none, some, List, Str, codes, arith, inl}
use pfnc.Effect.{ok-injective, err-ne-ok}
use pfnc.Vfs.{VfsPath, local, remote, archive}
use pfnc.Vfs.Interface.{Vfs}
use pfnc.Panel
use pfnc.Panel.{PanelState, IsValid, sync_viewport}
use pfnc.Registry.{new_registry, resolve}
use pfnc.App.{App, left_side, right_side, reload, reload_both}
use pfnc.App.Panels.{AreShort, reload-IsSound}
use pfnc.App.Whole.{reload-IsInOrder}
use pfnc.App.Opens.{ListsShort}
use pfnc.App.Session.{unlisted_app, start_at, new_with_config, restorable_local_cwd}
use pfnc.Config.{Config, ConfigIo, binding_of, load_from}
use pfnc.Keys.{KeyCode}
use pfnc.Main.{Running, start_program, begin, or_default}
use pfnc.Keymap.{from_overrides}
use pfnc.Main.Turns.{IsSafe}

pub some_of_map :
    {A B : Type 0} (f : A → B) (o : Option A) {b : B}
    → Option.map f o ≡ some b
    → (a : A) × (o ≡ some a) × (f a ≡ b)
some_of_map f none e = cc
some_of_map f (some a) e = (a, refl, some-injective (f a) _ e)

module _ {W : Type 0} (local_vfs : Vfs W) (lists : ListsShort local_vfs) where
  new-AreShort : AreShort (new_registry local_vfs)
  unfolding resolve
  new-AreShort local vfs found = subst ListsShort (ok-injective found) lists
  new-AreShort (remote _) vfs found = absurd (err-ne-ok found)
  new-AreShort (archive _ _) vfs found = absurd (err-ne-ok found)

  start_at-IsSafe :
      (w : W) (config : Config) (left_start right_start : VfsPath) (keymap : List (Str × KeyCode))
      → IsSafe (start_at local_vfs w config left_start right_start keymap)
  unfolding start_at unlisted_app reload_both Panel.new
  start_at-IsSafe w config left_start right_start keymap =
      let app = unlisted_app local_vfs w config left_start right_start keymap in
      let empty : (cwd : VfsPath) → IsValid (Panel.new local cwd) =
        λ cwd. record { on_entry = inl refl; listed = omega arith; scrolled = omega arith } in
      record {
        is_sound =
            reload-IsSound right_side (reload left_side app)
              (reload-IsSound left_side app (empty left_start, empty right_start, new-AreShort));
        is_in_order =
            reload-IsInOrder right_side (reload left_side app) (reload-IsInOrder left_side app tt);
      }

  new_with_config-IsSafe :
      (is_dir : VfsPath → Bool) (w : W) (config : Config) (fallback : VfsPath) (app : App W)
      → new_with_config is_dir local_vfs w config fallback ≡ some app
      → IsSafe app
  unfolding new_with_config
  new_with_config-IsSafe is_dir w config fallback app e =
      let (keymap, _, same) =
        some_of_map
          (start_at local_vfs w config
            (Option.get_or (restorable_local_cwd is_dir config.session.left) fallback)
            (Option.get_or (restorable_local_cwd is_dir config.session.right) fallback))
          (from_overrides (binding_of config.keybindings)) e in
      subst IsSafe same (start_at-IsSafe w config _ _ keymap)

  -- The program at its start is safe.
  pub start_program-IsSafe :
      (io : ConfigIo W) (path : VfsPath) (is_dir : VfsPath → Bool) (home : Option VfsPath) (w : W)
      (s : Running W)
      → start_program io path is_dir local_vfs home w ≡ some s
      → IsSafe s.app
  unfolding start_program
  start_program-IsSafe io path is_dir home w s e =
      let (config, w') = or_default (load_from io path w) in
      let (app, made, same) =
        some_of_map begin
          (new_with_config is_dir local_vfs w' config (Option.get_or home (codes "/"))) e in
      subst (λ (r : Running W). IsSafe r.app) same
        (new_with_config-IsSafe is_dir w' config (Option.get_or home (codes "/")) app made)
