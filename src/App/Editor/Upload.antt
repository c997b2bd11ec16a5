-- ===== src/App/Editor/Upload.antt =====
-- crates/app/src/editor.rs: when an edited file is written back.
use pfnc.Prelude.{ℕ, ◌≡◌, refl, true, ◌⊎◌, inl, inr, Option, none, some, [], ◌∷◌, Str, codes}
use pfnc.Effect.{Result, ok, err, out_of_fuel, then_run-inv}
use pfnc.Vfs.{VfsPath, VfsError, Location, IoError}
use pfnc.Vfs.Interface.{Vfs, PathLib}
use pfnc.Registry.{VfsRegistry, resolve}
use pfnc.Panel.{PanelState}
use pfnc.App.{App, EditTarget, reload_both, fetch}
use pfnc.App.Editor.{
  EditorIo, is_local, same_snapshot, find_editor, fs_snapshot, drop_guard, run_editor, edited_run,
  save_back, after_editor, edit_at, edit_on, edit_with, edit_file, edit_path,
}
use pfnc.App.Frame.{Outcome}
use pfnc.App.Editor.Quiet.{
  by_test, by_true, Keeps, Stays, IsQuietIo, IsQuietVfs, find_first-kept, edit_path-kept,
  run_editor-kept,
}

map_right : {A B C : Type 0} → (B → C) → A ⊎ B → A ⊎ C
map_right f (inl a) = inl a
map_right f (inr b) = inr (f b)

-- `P` stands for what only the writing to a backend changes.
module _ {W : Type 0} (P : W → Type 0) (io : EditorIo W) (paths : PathLib)
    (extension : VfsPath → Option Str) (describe : VfsError → Str) (retries rounds : ℕ)
    (quiet : IsQuietIo P io) where
  -- The backends that are open can be listed and read without a write.
  abbrev pub AreQuiet : VfsRegistry W → Type 0
  AreQuiet r = (l : Location) (vfs : Vfs W) → resolve r l ≡ ok vfs → IsQuietVfs P vfs

  fetch-kept : (r : VfsRegistry W) (panel : PanelState) → AreQuiet r → Keeps P (fetch r panel)
  fetch-kept r panel quiets w p =
      then_run-inv P (resolve r panel.location, w) (λ vfs. vfs.list_dir panel.cwd) p
        (λ vfs e. (quiets panel.location vfs e).lists panel.cwd w p)

  reload_both-kept : (app : App W) → AreQuiet app.registry → P app.world → P (reload_both app).world
  unfolding reload_both
  reload_both-kept app quiets p =
      fetch-kept app.registry app.right quiets _ (fetch-kept app.registry app.left quiets _ p)

  -- What the file shows after the editor is what it showed before; the editor starts in `v`.
  abbrev pub IsSame : VfsPath → VfsPath → W → Type 0
  IsSame editor path v =
      let (before, w) = fs_snapshot io paths extension describe retries rounds path v in
      (o : Result IoError (Unit {0}) × W)
      → run_editor io paths extension describe retries rounds editor path w ≡ some o
      → same_snapshot (fs_snapshot io paths extension describe retries rounds path o.1).0 before
        ≡ true

  -- What is kept where the call does not panic.
  abbrev pub KeptWorld : Option (App W) → Type 0
  KeptWorld o = Outcome (λ (app : App W). P app.world) o

  -- The run of the editor in this call, where it gets that far, leaves its copy as it was.
  abbrev pub LeavesCopy : EditTarget → App W → Type 0
  LeavesCopy target app =
      let (editor, w) = find_editor io paths extension describe retries rounds app.world in
      (program : VfsPath) (vfs : Vfs W) (path : VfsPath)
      → editor ≡ some program
      → resolve app.registry target.location ≡ ok vfs
      → (edit_path io paths extension describe retries rounds vfs target w).0 ≡ ok path
      → IsSame program path (edit_path io paths extension describe retries rounds vfs target w).1

  abbrev pub IsReady : App W → Type 0
  IsReady app = P app.world × AreQuiet app.registry

  save_back-kept :
      (vfs : Vfs W) (target : EditTarget) (path : VfsPath) (before : Option (ℕ × ℕ)) (app : App W)
      → (is_local target.location ≡ true)
        ⊎ (same_snapshot
              (fs_snapshot io paths extension describe retries rounds path app.world).0
              before
            ≡ true)
      → IsReady app
      → IsReady (save_back io paths extension describe retries rounds vfs target path before app)
  unfolding save_back
  save_back-kept vfs target path before app (inl here) ready =
      by_true IsReady (is_local target.location) app _ here ready
  save_back-kept vfs target path before app (inr same) (p, quiets) =
      by_test IsReady (is_local target.location) app _ (p, quiets)
        (by_true IsReady _ _ _ same (quiet.looks path app.world p, quiets))

  drop_guard-kept :
      (target : EditTarget) (path : VfsPath)
      → Stays P (drop_guard io paths extension describe retries rounds target path)
  drop_guard-kept target path w p =
      by_test P (is_local target.location) _ _ p (quiet.drops path w p)

  after_editor-kept :
      (editor path : VfsPath) (vfs : Vfs W) (target : EditTarget) (before : Option (ℕ × ℕ))
      (app : App W) (r : Result IoError (Unit {0}))
      → (is_local target.location ≡ true)
        ⊎ (same_snapshot
              (fs_snapshot io paths extension describe retries rounds path app.world).0
              before
            ≡ true)
      → AreQuiet app.registry
      → P app.world
      → P
          (after_editor io paths extension describe retries rounds editor vfs target path before app
            r).world
  unfolding after_editor save_back
  after_editor-kept editor path vfs target before app (ok _) same quiets p =
      let saved = save_back-kept vfs target path before app same (p, quiets) in
      drop_guard-kept target path _ (
        reload_both-kept
          (save_back io paths extension describe retries rounds vfs target path before app) saved.1
          saved.0)
  after_editor-kept editor path vfs target before app (err e) same quiets p =
      drop_guard-kept target path app.world p
  after_editor-kept editor path vfs target before app out_of_fuel same quiets p = p

  edited-kept :
      (editor path : VfsPath) (vfs : Vfs W) (target : EditTarget) (before : Option (ℕ × ℕ))
      (app : App W) (o : Option (Result IoError (Unit {0}) × W))
      → (is_local target.location ≡ true)
        ⊎ ((r : Result IoError (Unit {0}) × W)
            → o ≡ some r
            → same_snapshot
                (fs_snapshot io paths extension describe retries rounds path r.1).0
                before
              ≡ true)
      → AreQuiet app.registry
      → Outcome (λ (r : Result IoError (Unit {0}) × W). P r.1) o
      → KeptWorld (
          edited_run io paths extension describe retries rounds editor vfs target path before app o)
  unfolding edited_run
  edited-kept editor path vfs target before app none same quiets p = tt
  edited-kept editor path vfs target before app (some (r, w)) same quiets p =
      after_editor-kept editor path vfs target before (record app { world = w }) r
        (map_right (λ f. f (r, w) refl) same) quiets p

  edit_at-kept :
      (editor : VfsPath) (vfs : Vfs W) (target : EditTarget) (app : App W) (r : Result Str VfsPath)
      → (is_local target.location ≡ true)
        ⊎ ((path : VfsPath) → r ≡ ok path → IsSame editor path app.world)
      → IsReady app
      → KeptWorld (edit_at io paths extension describe retries rounds editor vfs target app r)
  unfolding edit_at
  edit_at-kept editor vfs target app (ok path) same (p, quiets) =
      let looked = quiet.looks path app.world p in
      let (before, v) = fs_snapshot io paths extension describe retries rounds path app.world in
      edited-kept editor path vfs target before app
        (run_editor io paths extension describe retries rounds editor path v)
        (map_right (λ f. f path refl) same) quiets
        (run_editor-kept P io paths extension describe retries rounds quiet editor path _ looked)
  edit_at-kept editor vfs target app (err e) same (p, quiets) = p
  edit_at-kept editor vfs target app out_of_fuel same (p, quiets) = p

  edit_on-kept :
      (editor : VfsPath) (target : EditTarget) (app : App W) (r : Result VfsError (Vfs W))
      → ((vfs : Vfs W) → r ≡ ok vfs → IsQuietVfs P vfs)
      → (is_local target.location ≡ true)
        ⊎ ((vfs : Vfs W) (path : VfsPath)
            → r ≡ ok vfs
            → (edit_path io paths extension describe retries rounds vfs target app.world).0
              ≡ ok path
            → IsSame editor path
                (edit_path io paths extension describe retries rounds vfs target app.world).1)
      → IsReady app
      → KeptWorld (edit_on io paths extension describe retries rounds editor target app r)
  unfolding edit_on
  edit_on-kept editor target app (ok vfs) source same (p, quiets) =
      let fetched = edit_path io paths extension describe retries rounds vfs target app.world in
      edit_at-kept editor vfs target (record app { world = fetched.1 }) fetched.0
        (map_right (λ f path. f vfs path refl) same)
        (
          edit_path-kept P io paths extension describe retries rounds quiet vfs target
              (source vfs refl) app.world p,
          quiets,
        )
  edit_on-kept editor target app (err e) source same (p, quiets) = p
  edit_on-kept editor target app out_of_fuel source same (p, quiets) = p

  edit_with-kept :
      (target : EditTarget) (app : App W) (editor : Option VfsPath)
      → (is_local target.location ≡ true)
        ⊎ ((program : VfsPath) (vfs : Vfs W) (path : VfsPath)
            → editor ≡ some program
            → resolve app.registry target.location ≡ ok vfs
            → (edit_path io paths extension describe retries rounds vfs target app.world).0
              ≡ ok path
            → IsSame program path
                (edit_path io paths extension describe retries rounds vfs target app.world).1)
      → IsReady app
      → KeptWorld (edit_with io paths extension describe retries rounds target app editor)
  unfolding edit_with
  edit_with-kept target app none same ready = ready.0
  edit_with-kept target app (some editor) same ready =
      edit_on-kept editor target app (resolve app.registry target.location)
        (ready.1 target.location) (map_right (λ f vfs path. f editor vfs path refl) same) ready

  -- A local file is never written by `edit_file` itself, and a file of another machine or of an archive is not
  -- written back when the editor, on the copy that was fetched, leaves it with the time and length of before: then
  -- all that only a write to a backend changes is kept, whichever editor is found, whatever fails on the way,
  -- provided that the other calls, those of the machine, its temporary file, the listing and the reading of
  -- the open backends, keep it, and the call does not panic.
  pub edit_file-kept :
      (target : EditTarget) (app : App W)
      → (is_local target.location ≡ true) ⊎ LeavesCopy target app
      → AreQuiet app.registry
      → P app.world
      → KeptWorld (edit_file io paths extension describe retries rounds target app)
  unfolding edit_file find_editor
  edit_file-kept target app same quiets p =
      let found = find_editor io paths extension describe retries rounds app.world in
      edit_with-kept target (record app { world = found.1 }) found.0 same
        (
          find_first-kept P io paths extension describe retries rounds quiet
              (codes "nano" ∷ codes "pico" ∷ codes "vi" ∷ []) app.world p,
          quiets,
        )
