-- ===== src/App/Frame/Edits.antt =====
-- crates/app/src/editor.rs: `edit_file`, by the rules of what every key keeps.

use mathlib.Core.Option
use pfnc.Prelude.{ℕ, ◌≡◌, ◌≢◌, refl, Option, none, some, Str}
use pfnc.Effect.{Result, ok, err, out_of_fuel}
use pfnc.Vfs.{VfsPath, VfsError, IoError}
use pfnc.Vfs.Interface.{Vfs, PathLib}
use pfnc.Registry.{resolve}
use pfnc.App.{App, EditTarget, left_side, right_side, reload_both}
use pfnc.App.Editor.{
  EditorIo, fs_snapshot, run_editor, same_snapshot, is_local, upload_temp, saved_status, save_back,
  after_editor, edit_at, edited_run, edit_on, edit_with, edit_file, edit_path, find_editor,
}
use pfnc.App.Editor.Quiet.{by_test}
use pfnc.App.Frame.{Rules}

module _ {W : Type 0} (io : EditorIo W) (paths : PathLib) (extension : VfsPath → Option Str)
    (describe : VfsError → Str) (retries rounds : ℕ) (Q : Type 0) (P : App W → Type 0)
    (rules : Rules Q P) where
  acted : (w : W) (app : App W) → P app → P (record app { world = w })
  acted w app p = rules.acts app.status w app p

  said : (s : Option Str) (app : App W) → P app → P (record app { status = s })
  said s app p = rules.acts s app.world app p

  -- What a call that may panic leaves; it panics only if the terminal cannot be set up.
  abbrev pub Lands : Option (App W) → Type 0
  Lands none = ((w : W) → io.init w ≢ none) → ⊥
  Lands (some app) = P app

  none_of_map : {A B : Type 0} (f : A → B) (o : Option A) → Option.map f o ≡ none → o ≡ none
  none_of_map f none e = refl
  none_of_map f (some a) e = cc

  save_back_keeps :
      (vfs : Vfs W) (target : EditTarget) (path : VfsPath) (before : Option (ℕ × ℕ)) (app : App W)
      → P app
      → P (save_back io paths extension describe retries rounds vfs target path before app)
  unfolding save_back
  save_back_keeps vfs target path before app p =
      let (now, w) = fs_snapshot io paths extension describe retries rounds path app.world in
      let (saved, w') =
        upload_temp io paths extension describe retries rounds vfs path target.path w in
      by_test P (is_local target.location) app _ p (
        by_test P (same_snapshot now before) (record app { world = w })
          (record app {
            world = w';
            status = saved_status io paths extension describe retries rounds saved app.status;
          })
          (acted w app p) (rules.acts _ w' app p))

  after_editor_keeps :
      (editor : VfsPath) (vfs : Vfs W) (target : EditTarget) (path : VfsPath)
      (before : Option (ℕ × ℕ)) (app : App W) (r : Result IoError (Unit {0}))
      → P app
      → P (
          after_editor io paths extension describe retries rounds editor vfs target path before app
            r)
  unfolding after_editor reload_both
  after_editor_keeps editor vfs target path before app (ok _) p = acted _ _ (
      rules.reloads right_side _
        (rules.reloads left_side _ (save_back_keeps vfs target path before app p)))
  after_editor_keeps editor vfs target path before app (err e) p = acted _ _ (said _ app p)
  after_editor_keeps editor vfs target path before app out_of_fuel p = p

  edited_keeps :
      (editor : VfsPath) (vfs : Vfs W) (target : EditTarget) (path : VfsPath)
      (before : Option (ℕ × ℕ)) (app : App W) (o : Option (Result IoError (Unit {0}) × W))
      → (o ≡ none → ((w : W) → io.init w ≢ none) → ⊥)
      → P app
      → Lands (
          edited_run io paths extension describe retries rounds editor vfs target path before app o)
  unfolding edited_run
  edited_keeps editor vfs target path before app none fails p = fails refl
  edited_keeps editor vfs target path before app (some (r, w)) fails p =
      after_editor_keeps editor vfs target path before (record app { world = w }) r (acted w app p)

  edit_at_keeps :
      (editor : VfsPath) (vfs : Vfs W) (target : EditTarget) (app : App W) (r : Result Str VfsPath)
      → P app
      → Lands (edit_at io paths extension describe retries rounds editor vfs target app r)
  unfolding edit_at run_editor
  edit_at_keeps editor vfs target app (err e) p = said _ app p
  edit_at_keeps editor vfs target app out_of_fuel p = p
  edit_at_keeps editor vfs target app (ok path) p =
      let (before, w) = fs_snapshot io paths extension describe retries rounds path app.world in
      edited_keeps editor vfs target path before app
        (run_editor io paths extension describe retries rounds editor path w)
        (λ e grants. grants _ (none_of_map _ _ e)) p

  edit_on_keeps :
      (editor : VfsPath) (target : EditTarget) (app : App W) (r : Result VfsError (Vfs W))
      → P app
      → Lands (edit_on io paths extension describe retries rounds editor target app r)
  unfolding edit_on
  edit_on_keeps editor target app (err e) p = said _ app p
  edit_on_keeps editor target app out_of_fuel p = p
  edit_on_keeps editor target app (ok vfs) p =
      let (fetched, w) =
        edit_path io paths extension describe retries rounds vfs target app.world in
      edit_at_keeps editor vfs target (record app { world = w }) fetched (acted w app p)

  edit_with_keeps :
      (target : EditTarget) (app : App W) (editor : Option VfsPath)
      → P app
      → Lands (edit_with io paths extension describe retries rounds target app editor)
  unfolding edit_with
  edit_with_keeps target app none p = said _ app p
  edit_with_keeps target app (some editor) p =
      edit_on_keeps editor target app (resolve app.registry target.location) p

  pub edit_file_keeps :
      (target : EditTarget) (app : App W)
      → P app
      → Lands (edit_file io paths extension describe retries rounds target app)
  unfolding edit_file
  edit_file_keeps target app p =
      let (editor, w) = find_editor io paths extension describe retries rounds app.world in
      edit_with_keeps target (record app { world = w }) editor (acted w app p)
