-- ===== src/App/Editor/Quiet.antt =====
-- crates/app/src/editor.rs: what the steps up to the run of the editor keep of the state.
use pfnc.Prelude.{
  ℕ, zero, suc, ◌≡◌, true, false, Bool, Option, none, some, List, [], ◌∷◌, Str, drop,
}
use pfnc.Effect.{M, Result, ok, err, out_of_fuel, pure, then_run-inv, map_err}
use pfnc.Effect.Hoare.{Any, Leaves, Leaves-bind, Leaves-map_err, Leaves-Any}
use pfnc.Vfs.{VfsPath, VfsError, IoError}
use pfnc.Vfs.Interface.{Vfs, PathLib, Reader, Writer}
use pfnc.Transport.{write_all, after_write, is_interrupted}
use mathlib.Core.Option
use pfnc.App.{EditTarget}
use pfnc.App.Frame.{Outcome}
use pfnc.App.Editor.{
  EditorIo, is_local, io_copy, after_read, is_executable, find_in_dirs, which, find_first,
  fill_temp, kept_run, download_to_temp, run_editor, edit_path,
}

-- What a test chooses between.
pub by_test :
    {C : Type 0} (Q : C → Type 0) (b : Bool) (x y : C)
    → Q x
    → Q y
    → Q (elim b as (λ _. C) [ true ↦ x | false ↦ y ])
by_test Q true x y left right = left
by_test Q false x y left right = right

pub by_true :
    {C : Type 0} (Q : C → Type 0) (b : Bool) (x y : C)
    → b ≡ true
    → Q x
    → Q (elim b as (λ _. C) [ true ↦ x | false ↦ y ])
by_true Q true x y e q = q
by_true Q false x y e q = cc

-- `P` stands for what only the writing to a backend changes.
module _ {W : Type 0} (P : W → Type 0) where
  abbrev pub QuietReader : Reader W → Type 0
  QuietReader reader = (n : ℕ) → Leaves P Any (reader.read n)

  abbrev pub QuietWriter : Writer W → Type 0
  QuietWriter writer = (bytes : List ℕ) → Leaves P Any (writer.write bytes)

  abbrev pub Keeps : {A : Type 0} → (W → A × W) → Type 0
  Keeps f = (w : W) → P w → P (f w).1

  abbrev pub Stays : (W → W) → Type 0
  Stays f = (w : W) → P w → P (f w)

  pub record IsQuietIo (io : EditorIo W) : Type 0 where
    pub dirs : Keeps io.path_dirs
    pub looks : (path : VfsPath) → Keeps (io.metadata path)
    pub temps : (suffix : Str) → Leaves P (λ t. QuietWriter t.1) (io.temp_file suffix)
    pub drops : (path : VfsPath) → Stays (io.drop_temp path)
    pub pauses : Stays io.pause
    pub resumes : Stays io.resume
    pub sleeps : (n : ℕ) → Stays (io.sleep_ms n)
    pub restores : Stays io.restore
    pub inits : (w : W) → P w → Outcome P (io.init w)
    pub clears : Stays io.clear
    pub edits : (editor path : VfsPath) → Keeps (io.status editor path)

  -- Listing and reading change nothing of it.
  pub record IsQuietVfs (vfs : Vfs W) : Type 0 where
    pub lists : (path : VfsPath) → Keeps (vfs.list_dir path)
    pub opens : (path : VfsPath) → Leaves P QuietReader (vfs.open_read path)

  -- What a lookup chooses between.
  by_lookup :
      {A B : Type 0} (o : Option B) (x : A × W) (f : B → A × W)
      → P x.1
      → ((b : B) → P (f b).1)
      → P ((elim o as (λ _. A × W) [ none ↦ x | some b ↦ f b ]).1)
  by_lookup none x f left right = left
  by_lookup (some b) x f left right = right b

  after_write-kept :
      (again : List ℕ → M W IoError (Unit {0})) (b : ℕ) (bs : List ℕ) (o : Result IoError ℕ × W)
      → ((bytes : List ℕ) → Keeps (again bytes))
      → P o.1
      → P (after_write again b bs o).1
  unfolding after_write
  after_write-kept again b bs (ok zero, w) next p = p
  after_write-kept again b bs (ok (suc k), w) next p = next (drop k bs) w p
  after_write-kept again b bs (err e, w) next p =
      by_test (λ (o : Result IoError (Unit {0}) × W). P o.1) (is_interrupted e.error_kind) _ _
        (next (b ∷ bs) w p) p
  after_write-kept again b bs (out_of_fuel, w) next p = p

  write_all-kept :
      (fuel : ℕ) (writer : Writer W)
      → QuietWriter writer
      → (bytes : List ℕ) → Keeps (write_all fuel writer bytes)
  unfolding write_all
  write_all-kept zero writer quiet bytes w p = p
  write_all-kept (suc fuel) writer quiet [] w p = p
  write_all-kept (suc fuel) writer quiet (b ∷ bs) w p =
      after_write-kept (write_all fuel writer) b bs (writer.write (b ∷ bs) w)
        (write_all-kept fuel writer quiet) ((quiet (b ∷ bs)).kept w p)

  module _ (retries : ℕ) where
    after_read-kept :
        (again : M W IoError (Unit {0})) (writer : Writer W) (o : Result IoError (List ℕ) × W)
        → QuietWriter writer
        → Keeps again
        → P o.1
        → P (after_read retries again writer o).1
    unfolding after_read
    after_read-kept again writer (ok [], w) quiet next p = p
    after_read-kept again writer (ok (b ∷ bytes), w) quiet next p =
        then_run-inv P (write_all retries writer (b ∷ bytes) w) (λ _. again)
          (write_all-kept retries writer quiet (b ∷ bytes) w p)
          (λ _ _. next _ (write_all-kept retries writer quiet (b ∷ bytes) w p))
    after_read-kept again writer (err e, w) quiet next p =
        by_test (λ (o : Result IoError (Unit {0}) × W). P o.1) (is_interrupted e.error_kind) _ _
          (next w p) p
    after_read-kept again writer (out_of_fuel, w) quiet next p = p

    io_copy-kept :
        (rounds : ℕ) (reader : Reader W) (writer : Writer W)
        → QuietReader reader
        → QuietWriter writer
        → Keeps (io_copy retries rounds reader writer)
    unfolding io_copy
    io_copy-kept zero reader writer reads writes w p = p
    io_copy-kept (suc rounds) reader writer reads writes w p =
        after_read-kept (io_copy retries rounds reader writer) writer (reader.read 8192 w) writes
          (io_copy-kept rounds reader writer reads writes) ((reads 8192).kept w p)

  module _ (io : EditorIo W) (paths : PathLib) (extension : VfsPath → Option Str)
      (describe : VfsError → Str) (retries rounds : ℕ) (quiet : IsQuietIo io) where
    find_in_dirs-kept :
        (name : Str) (dirs : List VfsPath)
        → Keeps (find_in_dirs io paths extension describe retries rounds name dirs)
    unfolding find_in_dirs is_executable
    find_in_dirs-kept name [] w p = p
    find_in_dirs-kept name (dir ∷ dirs) w p =
        let looked = quiet.looks (paths.join dir name) w p in
        by_test (λ (o : Option VfsPath × W). P o.1) _ _ _ looked
          (find_in_dirs-kept name dirs _ looked)

    which-kept : (name : Str) → Keeps (which io paths extension describe retries rounds name)
    unfolding which
    which-kept name w p =
        let read = quiet.dirs w p in
        by_lookup (io.path_dirs w).0 _ _ read (λ dirs. find_in_dirs-kept name dirs _ read)

    pub find_first-kept :
        (names : List Str) → Keeps (find_first io paths extension describe retries rounds names)
    unfolding find_first
    find_first-kept [] w p = p
    find_first-kept (name ∷ names) w p =
        let tried = which-kept name w p in
        by_lookup (which io paths extension describe retries rounds name w).0 _ _
          (find_first-kept names _ tried) (λ path. tried)

    kept_run-kept :
        (temp : VfsPath) (o : Result Str (Unit {0}) × W)
        → P o.1
        → P (kept_run io paths extension describe retries rounds temp o).1
    kept_run-kept temp (ok _, w) p = p
    kept_run-kept temp (err e, w) p = quiet.drops temp w p
    kept_run-kept temp (out_of_fuel, w) p = p

    fill_temp-kept :
        (vfs : Vfs W) (path : VfsPath) (t : VfsPath × Writer W)
        → IsQuietVfs vfs
        → QuietWriter t.1
        → Keeps (fill_temp io paths extension describe retries rounds vfs path t)
    unfolding fill_temp
    fill_temp-kept vfs path (temp, writer) source writes w p = kept_run-kept temp _ (
        (Leaves-bind {f = λ reader. map_err (λ e. e.message) (io_copy retries rounds reader writer)}
            (Leaves-map_err describe (source.opens path))
            (λ reader reads.
              Leaves-map_err (λ e. e.message)
                (Leaves-Any (io_copy retries rounds reader writer)
                  (io_copy-kept retries rounds reader writer reads writes)))).kept
          w p)

    pub edit_path-kept :
        (vfs : Vfs W) (target : EditTarget)
        → IsQuietVfs vfs
        → Keeps (edit_path io paths extension describe retries rounds vfs target)
    unfolding download_to_temp
    edit_path-kept vfs target source w p =
        by_test (λ m. P (m w).1) (is_local target.location) (pure target.path) _ p
          ((Leaves-bind (Leaves-map_err (λ e. e.message) (quiet.temps _)) (λ t writes.
              Leaves-Any (fill_temp io paths extension describe retries rounds vfs target.path t)
                (fill_temp-kept vfs target.path t source writes))).kept
            w p)

    set_up-kept :
        {A : Type 0} (o : Option W) (a : A)
        → Outcome P o
        → Outcome (λ (r : A × W). P r.1) (Option.map (λ v. (a, io.resume (io.clear v))) o)
    set_up-kept none a p = tt
    set_up-kept (some w) a p = quiet.resumes _ (quiet.clears w p)

    pub run_editor-kept :
        (editor path : VfsPath) (w : W)
        → P w
        → Outcome
            (λ (r : Result IoError (Unit {0}) × W). P r.1)
            (run_editor io paths extension describe retries rounds editor path w)
    unfolding run_editor
    run_editor-kept editor path w p = set_up-kept (io.init _) _ (
        quiet.inits _
          (quiet.edits editor path _ (quiet.restores _ (quiet.sleeps 80 _ (quiet.pauses _ p)))))
