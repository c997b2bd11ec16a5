-- ===== src/App/Editor.antt =====
-- crates/app/src/editor.rs: the external editor on a file. What it calls of the machine and of the terminal is
-- `EditorIo`, over the same state as the backends; an `anyhow::Error` is its text.
pub mod Quiet
mod Upload
pub mod Tests
use mathlib.Core.Option
use pfnc.Prelude.{
  ℕ, zero, suc, ◌%◌, ◌/◌, Bool, true, false, not, ◌&&◌, ◌||◌, Option, none, some, List, [], ◌∷◌,
  ◌++◌, Str, codes, ◌==◌,
}
use pfnc.Effect.{M, Result, ok, err, out_of_fuel, pure, fail, exhausted, map_err, ◌>>=◌, ◌>>◌}
use pfnc.Vfs.{VfsPath, VfsError, IoError, Location, local, remote, archive}
use pfnc.Vfs.Interface.{Vfs, PathLib, Reader, Writer}
use pfnc.Transport.{write_all, is_interrupted}
use pfnc.Registry.{resolve}
use pfnc.App.{App, EditTarget, reload_both}

-- `fs::metadata`, which follows links.
pub record FileMeta : Type 0 where
  pub is_file : Bool
  pub mode : ℕ
  pub modified : Option ℕ
  pub len : ℕ

-- `path_dirs` is `split_paths` of `PATH`; `temp_file` makes an empty file with a suffix, `drop_temp` deletes it.
-- `pause` and `resume` are those of the `InputGate`. `init` is `ratatui::init`, which panics when the terminal cannot be
-- set up: `none`.
pub record EditorIo (W : Type 0) : Type 0 where
  pub path_dirs : W → Option (List VfsPath) × W
  pub metadata : VfsPath → M W IoError FileMeta
  pub temp_file : Str → M W IoError (VfsPath × Writer W)
  pub drop_temp : VfsPath → W → W
  pub open_file : VfsPath → M W IoError (Reader W)
  pub pause : W → W
  pub resume : W → W
  pub sleep_ms : ℕ → W → W
  pub restore : W → W
  pub init : W → Option W
  pub clear : W → W
  pub status : VfsPath → VfsPath → M W IoError (Unit {0})

-- `mode & 0o111 != 0`
abbrev pub any_execute : ℕ → Bool
any_execute mode = not (mode % 2 == 0 && mode / 8 % 2 == 0 && mode / 64 % 2 == 0)

abbrev pub runs : Result IoError FileMeta → Bool
runs (ok m) = m.is_file && any_execute m.mode
runs _ = false

abbrev pub snapshot_of : Result IoError FileMeta → Option (ℕ × ℕ)
snapshot_of (ok m) = Option.map (λ t. (t, m.len)) m.modified
snapshot_of _ = none

-- `==` of two snapshots.
abbrev pub same_snapshot : Option (ℕ × ℕ) → Option (ℕ × ℕ) → Bool
same_snapshot none none = true
same_snapshot (some (t, n)) (some (u, m)) = t == u && n == m
same_snapshot _ _ = false

abbrev pub is_local : Location → Bool
is_local local = true
is_local _ = false

abbrev pub no_editor : Str
no_editor = codes "no editor found on PATH (tried nano, pico, vi)"

module _ {W : Type 0} (retries : ℕ) where
  unfoldable pub after_read :
      M W IoError (Unit {0})
      → Writer W
      → Result IoError (List ℕ) × W
      → Result IoError (Unit {0}) × W
  unfolding write_all
  after_read again writer (ok [], w) = (ok tt, w)
  after_read again writer (ok (b ∷ bytes), w) = (write_all retries writer (b ∷ bytes) >> again) w
  after_read again writer (err e, w) = elim (is_interrupted e.error_kind) [
    | true ↦ again w
    | false ↦ fail e w
  ]
  after_read again writer (out_of_fuel, w) = exhausted w

  -- `std::io::copy`, whose count is not used; `rounds` bounds the reads.
  unfoldable pub io_copy : ℕ → Reader W → Writer W → M W IoError (Unit {0})
  unfolding after_read
  io_copy zero reader writer = exhausted
  io_copy (suc rounds) reader writer =
      λ w. after_read (io_copy rounds reader writer) writer (reader.read 8192 w)

module _ {W : Type 0} (io : EditorIo W) (paths : PathLib) (extension : VfsPath → Option Str)
    (describe : VfsError → Str) (retries rounds : ℕ) where
  unfoldable pub is_executable : VfsPath → W → Bool × W
  is_executable path w = let (meta, w') = io.metadata path w in (runs meta, w')

  unfoldable pub find_in_dirs : Str → List VfsPath → W → Option VfsPath × W
  unfolding is_executable
  find_in_dirs name [] w = (none, w)
  find_in_dirs name (dir ∷ dirs) w =
      let (here, w') = is_executable (paths.join dir name) w in
      elim here [ true ↦ (some (paths.join dir name), w') | false ↦ find_in_dirs name dirs w' ]

  unfoldable pub which : Str → W → Option VfsPath × W
  unfolding find_in_dirs
  which name w =
      let (dirs, w') = io.path_dirs w in
      elim dirs [ none ↦ (none, w') | some ds ↦ find_in_dirs name ds w' ]

  unfoldable pub find_first : List Str → W → Option VfsPath × W
  unfolding which
  find_first [] w = (none, w)
  find_first (name ∷ names) w =
      let (found, w') = which name w in
      elim found [ some path ↦ (some path, w') | none ↦ find_first names w' ]

  unfoldable pub find_editor : W → Option VfsPath × W
  unfolding find_first
  find_editor = find_first (codes "nano" ∷ codes "pico" ∷ codes "vi" ∷ [])

  unfoldable pub fs_snapshot : VfsPath → W → Option (ℕ × ℕ) × W
  fs_snapshot path w = let (meta, w') = io.metadata path w in (snapshot_of meta, w')

  -- `?` into an `anyhow::Error`.
  abbrev pub io_text : {A : Type 0} → M W IoError A → M W Str A
  io_text m = map_err (λ e. e.message) m

  abbrev pub vfs_text : {A : Type 0} → M W VfsError A → M W Str A
  vfs_text m = map_err describe m

  abbrev pub suffix_of : VfsPath → Str
  suffix_of path = elim (extension path) [ none ↦ [] | some e ↦ 46 ∷ e ]

  -- The temporary file is deleted when the download fails.
  abbrev pub kept_run : VfsPath → Result Str (Unit {0}) × W → Result Str VfsPath × W
  kept_run temp (ok _, w) = (ok temp, w)
  kept_run temp (err e, w) = (err e, io.drop_temp temp w)
  kept_run temp (out_of_fuel, w) = (out_of_fuel, w)

  unfoldable pub fill_temp : Vfs W → VfsPath → VfsPath × Writer W → M W Str VfsPath
  unfolding io_copy
  fill_temp vfs remote_path (temp, writer) w = kept_run temp (
      (vfs_text (vfs.open_read remote_path) >>= λ reader.
      io_text (io_copy retries rounds reader writer))
        w)

  unfoldable pub download_to_temp : Vfs W → VfsPath → M W Str VfsPath
  unfolding fill_temp
  download_to_temp vfs remote_path =
      io_text (io.temp_file (suffix_of remote_path)) >>= fill_temp vfs remote_path

  unfoldable pub upload_temp : Vfs W → VfsPath → VfsPath → M W Str (Unit {0})
  unfolding io_copy
  upload_temp vfs local_path remote_path = do
    reader ← io_text (io.open_file local_path)
    writer ← vfs_text (vfs.create_write remote_path none)
    io_text (io_copy retries rounds reader writer)

  -- The file that the editor is given.
  abbrev pub edit_path : Vfs W → EditTarget → M W Str VfsPath
  unfolding download_to_temp
  edit_path vfs target = elim (is_local target.location) [
    | true ↦ pure target.path
    | false ↦ download_to_temp vfs target.path
  ]

  -- The terminal is the editor's, and the input thread waits.
  unfoldable pub run_editor : VfsPath → VfsPath → W → Option (Result IoError (Unit {0}) × W)
  run_editor editor path w =
      let (spawn_result, w') = io.status editor path (io.restore (io.sleep_ms 80 (io.pause w))) in
      Option.map (λ v. (spawn_result, io.resume (io.clear v))) (io.init w')

  abbrev pub drop_guard : EditTarget → VfsPath → W → W
  drop_guard target path w = elim (is_local target.location) [
    | true ↦ w
    | false ↦ io.drop_temp path w
  ]

  abbrev pub saved_status : Result Str (Unit {0}) → Option Str → Option Str
  saved_status (err e) status = some (codes "failed to save changes back: " ++ e)
  saved_status _ status = status

  -- A file of another machine goes back when it changed.
  unfoldable pub save_back : Vfs W → EditTarget → VfsPath → Option (ℕ × ℕ) → App W → App W
  unfolding fs_snapshot upload_temp
  save_back vfs target path before app = elim (is_local target.location) [
    | true ↦ app
    | false ↦
        let (now, w) = fs_snapshot path app.world in
        elim (same_snapshot now before) [
          | true ↦ record app { world = w }
          | false ↦
              let (saved, w') = upload_temp vfs path target.path w in
              record app { world = w'; status = saved_status saved app.status }
        ]
  ]

  abbrev pub drop_after : EditTarget → VfsPath → App W → App W
  drop_after target path app = record app { world = drop_guard target path app.world }

  unfoldable pub after_editor :
      VfsPath
      → Vfs W
      → EditTarget
      → VfsPath
      → Option (ℕ × ℕ)
      → App W
      → Result IoError (Unit {0})
      → App W
  unfolding save_back reload_both
  after_editor editor vfs target path before app (ok _) =
      drop_after target path (reload_both (save_back vfs target path before app))
  after_editor editor vfs target path before app (err e) = drop_after target path (record app {
    status = some (codes "failed to launch " ++ editor ++ codes ": " ++ e.message);
  })
  after_editor editor vfs target path before app out_of_fuel = app

  unfoldable pub edited_run :
      VfsPath
      → Vfs W
      → EditTarget
      → VfsPath
      → Option (ℕ × ℕ)
      → App W
      → Option (Result IoError (Unit {0}) × W)
      → Option (App W)
  unfolding after_editor
  edited_run editor vfs target path before app none = none
  edited_run editor vfs target path before app (some (spawn_result, w)) =
      some (after_editor editor vfs target path before (record app { world = w }) spawn_result)

  -- From here on, `none` is the panic of `ratatui::init`.
  unfoldable pub edit_at :
      VfsPath → Vfs W → EditTarget → App W → Result Str VfsPath → Option (App W)
  unfolding fs_snapshot run_editor edited_run
  edit_at editor vfs target app (err e) =
      some (record app { status = some (codes "could not fetch file for editing: " ++ e) })
  edit_at editor vfs target app out_of_fuel = some app
  edit_at editor vfs target app (ok path) =
      let (before, w) = fs_snapshot path app.world in
      edited_run editor vfs target path before app (run_editor editor path w)

  unfoldable pub edit_on : VfsPath → EditTarget → App W → Result VfsError (Vfs W) → Option (App W)
  unfolding edit_at download_to_temp
  edit_on editor target app (err e) =
      some (record app { status = some (codes "edit failed: " ++ describe e) })
  edit_on editor target app out_of_fuel = some app
  edit_on editor target app (ok vfs) =
      let (fetched, w) = edit_path vfs target app.world in
      edit_at editor vfs target (record app { world = w }) fetched

  unfoldable pub edit_with : EditTarget → App W → Option VfsPath → Option (App W)
  unfolding edit_on resolve
  edit_with target app none = some (record app { status = some no_editor })
  edit_with target app (some editor) =
      edit_on editor target app (resolve app.registry target.location)

  unfoldable pub edit_file : EditTarget → App W → Option (App W)
  unfolding find_editor edit_with
  edit_file target app =
      let (editor, w) = find_editor app.world in edit_with target (record app { world = w }) editor
