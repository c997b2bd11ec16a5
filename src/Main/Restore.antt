-- ===== src/Main/Restore.antt =====
-- crates/app/src/main.rs and app.rs: the end of the program and its next start.
use mathlib.Core.Option
use mathlib.Core.Option.{some-injective}
use pfnc.Prelude.{
  ◌≡◌, refl, ◌∙◌, subst, Bool, true, false, Option, none, some, List, codes, Str, if◌then◌else◌,
  arith,
}
use pfnc.Effect.{Result, ok, err, out_of_fuel, ok-injective}
use pfnc.Vfs.{VfsPath, VfsError, Location, local, remote, archive, EntryMeta}
use pfnc.Vfs.Interface.{Vfs}
use pfnc.Keys.{KeyCode}
use pfnc.Panel.{PanelState, clamp_cursor}
use pfnc.Panel
use pfnc.Keymap.{from_overrides}
use pfnc.Config.{Config, ConfigIo, ConfigError, binding_of, load_from, save_to}
use pfnc.Config.Store.{IsFaithful, load_from-save_to}
use pfnc.App.{App, PaneSide, left_side, right_side, reload, reload_both, show_entries, fetch}
use pfnc.App.Session.{
  unlisted_app, start_at, new_with_config, sync_session_into_config, panel_session_config,
  restorable_local_cwd,
}
use pfnc.Main.{Running, start_program, end_program, begin, or_default}
use pfnc.Main.Start.{some_of_map}

-- The directory that a panel comes back to: its own, if that is local and still there.
abbrev pub remembered : (VfsPath → Bool) → VfsPath → PanelState → VfsPath
remembered is_dir home p = elim p.location [
  | local ↦ if is_dir p.cwd then p.cwd else home
  | remote _ ↦ home
  | archive _ _ ↦ home
]

-- A panel of the next run: local, in the directory that is remembered.
pub record ComesBack (is_dir : VfsPath → Bool) (home : VfsPath) (old new : PanelState)
    : Type 0 where
  pub at_home : new.location ≡ local
  pub same_cwd : new.cwd ≡ remembered is_dir home old

if_there :
    (b : Bool) (x y : VfsPath) → Option.get_or (if b then some x else none) y ≡ (if b then x else y)
if_there true x y = refl
if_there false x y = refl

restored_at :
    (is_dir : VfsPath → Bool) (home : VfsPath) (l : Location) (p : PanelState)
    → Option.get_or
        (restorable_local_cwd is_dir (panel_session_config (record p { location = l })))
        home
      ≡ remembered is_dir home (record p { location = l })
unfolding restorable_local_cwd panel_session_config Option.bind
restored_at is_dir home local p = if_there (is_dir p.cwd) p.cwd home
restored_at is_dir home (remote _) p = refl
restored_at is_dir home (archive _ _) p = refl

abbrev IsAt : Location → VfsPath → PanelState → Type 0
IsAt l cwd p = (p.location ≡ l) × (p.cwd ≡ cwd)

show_entries-IsAt :
    (r : Result VfsError (List EntryMeta)) (p : PanelState)
    → IsAt p.location p.cwd (show_entries r p)
unfolding clamp_cursor
show_entries-IsAt r p = (ground arith, ground arith)

comes_back :
    (is_dir : VfsPath → Bool) (home : VfsPath) (old new : PanelState)
    → IsAt local (Option.get_or (restorable_local_cwd is_dir (panel_session_config old)) home) new
    → ComesBack is_dir home old new
comes_back is_dir home old new at = record {
  at_home = at.0;
  same_cwd = at.1 ∙ restored_at is_dir home old.location old;
}

or_default_ok :
    {W : Type 0} (o : Result ConfigError Config × W) {c : Config}
    → o.0 ≡ ok c
    → (or_default o).0 ≡ c
or_default_ok (ok d, w) e = ok-injective e
or_default_ok (err _, w) e = cc
or_default_ok (out_of_fuel, w) e = cc

-- The settings and the places of the panels are those of `a`.
record SamePlaces {W : Type 0} (a b : App W) : Type 0 where
  left_at : IsAt a.left.location a.left.cwd b.left
  right_at : IsAt a.right.location a.right.cwd b.right
  same_config : b.config ≡ a.config

module _ {W : Type 0} where
  reload-SamePlaces :
      (side : PaneSide) (a b : App W) → SamePlaces a b → SamePlaces a (reload side b)
  unfolding reload
  reload-SamePlaces left_side a b s =
      let shown = show_entries-IsAt (fetch b.registry b.left b.world).0 b.left in
      record {
        left_at = (shown.0 ∙ s.left_at.0, shown.1 ∙ s.left_at.1);
        right_at = s.right_at;
        same_config = s.same_config;
      }
  reload-SamePlaces right_side a b s =
      let shown = show_entries-IsAt (fetch b.registry b.right b.world).0 b.right in
      record {
        left_at = s.left_at;
        right_at = (shown.0 ∙ s.right_at.0, shown.1 ∙ s.right_at.1);
        same_config = s.same_config;
      }

  start_at-SamePlaces :
      (local_vfs : Vfs W) (w : W) (config : Config) (l r : VfsPath) (keymap : List (Str × KeyCode))
      → SamePlaces
          (unlisted_app local_vfs w config l r keymap)
          (start_at local_vfs w config l r keymap)
  unfolding start_at reload_both
  start_at-SamePlaces local_vfs w config l r keymap =
      let a = unlisted_app local_vfs w config l r keymap in
      reload-SamePlaces right_side a (reload left_side a) (
        reload-SamePlaces left_side a a
          (record { left_at = (refl, refl); right_at = (refl, refl); same_config = refl }))

  -- What a start with the settings `config` looks like.
  record Started (is_dir : VfsPath → Bool) (home : VfsPath) (config : Config) (app : App W)
      : Type 0 where
    started_left :
        IsAt local (Option.get_or (restorable_local_cwd is_dir config.session.left) home) app.left
    started_right :
        IsAt local (Option.get_or (restorable_local_cwd is_dir config.session.right) home) app.right
    started_config : app.config ≡ config

  new_with_config-Started :
      (is_dir : VfsPath → Bool) (local_vfs : Vfs W) (w : W) (config : Config) (home : VfsPath)
      (app : App W)
      → new_with_config is_dir local_vfs w config home ≡ some app
      → Started is_dir home config app
  unfolding new_with_config unlisted_app Panel.new
  new_with_config-Started is_dir local_vfs w config home app e =
      let left = Option.get_or (restorable_local_cwd is_dir config.session.left) home in
      let right = Option.get_or (restorable_local_cwd is_dir config.session.right) home in
      let (keymap, _, same) =
        some_of_map (start_at local_vfs w config left right)
          (from_overrides (binding_of config.keybindings)) e in
      let s = start_at-SamePlaces local_vfs w config left right keymap in
      subst (Started is_dir home config) same (record {
        started_left = s.left_at;
        started_right = s.right_at;
        started_config = s.same_config;
      })

  -- The next run has the settings of the last one, and its panels come back.
  pub record Resumes (is_dir : VfsPath → Bool) (home : VfsPath) (app next : App W) : Type 0 where
    pub left_back : ComesBack is_dir home app.left next.left
    pub right_back : ComesBack is_dir home app.right next.right
    pub same_settings : next.config ≡ (sync_session_into_config app).config

  Started-Resumes :
      (is_dir : VfsPath → Bool) (home : VfsPath) (app next : App W)
      → Started is_dir home (sync_session_into_config app).config next
      → Resumes is_dir home app next
  unfolding sync_session_into_config
  Started-Resumes is_dir home app next n = record {
    left_back = comes_back is_dir home app.left next.left n.started_left;
    right_back = comes_back is_dir home app.right next.right n.started_right;
    same_settings = n.started_config;
  }

  -- A program that is quit and started again comes back to where it was: with a file system that reads what was
  -- written to it, and settings that were saved, the next start has the same settings, and each panel is
  -- local, in the directory that it had if that was local and is still a directory, else in `HOME`.
  pub start_program-end_program :
      (io : ConfigIo W) (path : VfsPath) (is_dir : VfsPath → Bool) (local_vfs : Vfs W)
      (home : Option VfsPath) (app : App W) (s : Running W)
      → IsFaithful io
      → (save_to io path (sync_session_into_config app).config app.world).0 ≡ ok tt
      → start_program io path is_dir local_vfs home (end_program io path app) ≡ some s
      → Resumes is_dir (Option.get_or home (codes "/")) app s.app
  unfolding start_program end_program
  start_program-end_program io path is_dir local_vfs home app s faithful saved e =
      let home_dir = Option.get_or home (codes "/") in
      let (next, made, same) = some_of_map begin _ e in
      let started =
        subst (λ c. Started is_dir home_dir c next)
          (or_default_ok (load_from io path (end_program io path app)) (
            load_from-save_to io faithful path (sync_session_into_config app).config app.world
              saved))
          (new_with_config-Started is_dir local_vfs _ _ home_dir next made) in
      subst (λ (r : Running W). Resumes is_dir home_dir app r.app) same
        (Started-Resumes is_dir home_dir app next started)
