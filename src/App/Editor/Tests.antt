-- ===== src/App/Editor/Tests.antt =====
-- crates/app/src/editor.rs on a program with both panels on one disk.
use pfnc.Prelude.{
  false, ◌+◌, ℕ, length, if◌then◌else◌, ◌≡◌, refl, subst, sym, inl, some, none, [], ◌∷◌, codes,
  true, Bool-cases, inr, str_eq,
}
use pfnc.Effect.{Result, pure, ok, err, ok-injective, err-ne-ok}
use pfnc.Effect.Hoare.{Leaves-pure, Leaves-Any}
use pfnc.Vfs.{VfsPath, IoError, kind_other, local, remote, archive}
use pfnc.Vfs.Interface.{Writer}
use pfnc.Registry.{new_registry, resolve}
use pfnc.Transport.{write_all, after_write}
use pfnc.Fixtures.{fresh_world, World, test_vfs, test_paths, test_reader}
use pfnc.App.{App, EditTarget, browsing}
use pfnc.App.Tests.{app_in}
use pfnc.App.Editor.{
  EditorIo, FileMeta, edit_file, find_editor, find_first, which, find_in_dirs, is_executable,
  same_snapshot, fill_temp, io_copy, after_read, download_to_temp, fs_snapshot, run_editor,
  edit_path,
}
use pfnc.App.Editor.Quiet.{QuietWriter, IsQuietIo, IsQuietVfs}
use pfnc.App.Frame.{Outcome}
use mathlib.Core.Option.{some-injective}
use pfnc.App.Editor.Upload.{AreQuiet, LeavesCopy, IsSame, edit_file-kept}

-- The temporary file is there while `current_file` names it; it has `bytes_done` bytes, and its time is that of the
-- last byte.
abbrev temp_meta : World → Result IoError FileMeta
temp_meta w = elim w.progress.current_file [
  | none ↦ err (record { error_kind = kind_other; message = codes "not found" })
  | some _ ↦ ok (record {
    is_file = true;
    mode = 384;
    modified = some w.progress.bytes_done;
    len = w.progress.bytes_done;
  })
]

abbrev program_meta : FileMeta
program_meta = record { is_file = true; mode = 493; modified = some 4; len = 3 }

abbrev grow_temp : ℕ → World → World
grow_temp n w = record w {
  progress = record w.progress {
    current_file = some (codes "/tmp/x");
    bytes_done = w.progress.bytes_done + n;
  };
}

abbrev temp_writer : Writer World
temp_writer = record {
  write = λ bytes w. pure (length bytes) (grow_temp (length bytes) w);
  flush = pure tt;
}

abbrev pub test_io : EditorIo World
test_io = record {
  path_dirs = λ w. (some (codes "/bin" ∷ []), w);
  metadata = λ path w. (if str_eq path (codes "/tmp/x") then temp_meta w else ok program_meta, w);
  temp_file = λ _ w. pure (codes "/tmp/x", temp_writer) (grow_temp 0 w);
  drop_temp = λ _ w. record w { progress = record w.progress { current_file = none } };
  open_file = λ _. pure test_reader;
  pause = λ w. w;
  resume = λ w. w;
  sleep_ms = λ _ w. w;
  restore = λ w. w;
  init = λ w. some w;
  clear = λ w. w;
  status = λ _ _. pure tt;
}

-- No byte was written to the disk.
abbrev NothingStored : World → Type 0
NothingStored w = w.stored ≡ []

quiet_io : IsQuietIo NothingStored test_io
quiet_io = record {
  dirs = λ _ p. p;
  looks = λ _ _ p. p;
  temps = λ _. record {
    kept = λ w p. p;
    returned = λ w p t e.
        subst (λ (x : VfsPath × Writer World). QuietWriter NothingStored x.1) (ok-injective e)
          (λ bytes. record { kept = λ _ q. q; returned = λ _ _ _ _. tt });
  };
  drops = λ _ _ p. p;
  pauses = λ _ p. p;
  resumes = λ _ p. p;
  sleeps = λ _ _ p. p;
  restores = λ _ p. p;
  inits = λ _ p. p;
  clears = λ _ p. p;
  edits = λ _ _ _ p. p;
}

abbrev edited : EditTarget
edited = record { location = remote (codes "p"); path = codes "/d/f" }

abbrev opened_app : App World
opened_app = record (app_in browsing) {
  registry = record (new_registry test_vfs) { remotes = (codes "p", test_vfs) ∷ [] };
  world = fresh_world (1 ∷ 2 ∷ 3 ∷ []) false;
}

listing_state : (p : VfsPath) (w : World) → (test_vfs.list_dir p w).1 ≡ w
listing_state p w = elim (Bool-cases (str_eq p (codes "/d"))) [
  | inl here ↦ rw here refl
  | inr elsewhere ↦ rw elsewhere refl
]

disk-IsQuietVfs : IsQuietVfs NothingStored test_vfs
disk-IsQuietVfs = record {
  lists = λ p w none_stored. subst NothingStored (sym (listing_state p w)) none_stored;
  opens = λ _. Leaves-pure (λ n. Leaves-Any (test_reader.read n) (λ w p. p));
}

quiet_backends :
    AreQuiet NothingStored test_io test_paths (λ _. none) (λ _. []) 9 9 quiet_io opened_app.registry
unfolding resolve
quiet_backends local vfs found =
    subst (IsQuietVfs NothingStored) (ok-injective found) disk-IsQuietVfs
quiet_backends (remote p) vfs found = elim (Bool-cases (str_eq (codes "p") p)) [
  | inl here ↦ subst (IsQuietVfs NothingStored) (ok-injective (rw here at found)) disk-IsQuietVfs
  | inr elsewhere ↦ absurd (err-ne-ok (rw elsewhere at found))
]
quiet_backends (archive _ _) vfs found = absurd (err-ne-ok found)

-- The copy is made anew, filled with three bytes, and not touched by the editor.
looked_at :
    LeavesCopy NothingStored test_io test_paths (λ _. none) (λ _. []) 9 9 quiet_io edited opened_app
unfolding resolve find_editor find_first which find_in_dirs is_executable download_to_temp fill_temp
    io_copy after_read write_all after_write fs_snapshot run_editor
looked_at program vfs path chosen found fetched =
    subst
      (λ v.
        (edit_path test_io test_paths (λ _. none) (λ _. []) 9 9 v edited opened_app.world).0
          ≡ ok path
        → IsSame NothingStored test_io test_paths (λ _. none) (λ _. []) 9 9 quiet_io program path
            (edit_path test_io test_paths (λ _. none) (λ _. []) 9 9 v edited opened_app.world).1)
      (ok-injective found)
      (λ here.
        subst
          (λ p.
            IsSame NothingStored test_io test_paths (λ _. none) (λ _. []) 9 9 quiet_io program p
              (edit_path test_io test_paths (λ _. none) (λ _. []) 9 9 test_vfs edited
                opened_app.world).1)
          (ok-injective here)
          (λ o e.
            subst
              (λ (x : Result IoError (Unit {0}) × World).
                same_snapshot
                  (fs_snapshot test_io test_paths (λ _. none) (λ _. []) 9 9 (codes "/tmp/x") x.1).0
                  (some (3, 3))
                ≡ true)
              (some-injective _ o e) refl))
      fetched

edit_file-kept_example :
    Outcome
      (λ app. NothingStored app.world)
      (edit_file test_io test_paths (λ _. none) (λ _. []) 9 9 edited opened_app)
edit_file-kept_example =
    edit_file-kept NothingStored test_io test_paths (λ _. none) (λ _. []) 9 9 quiet_io edited
      opened_app (inr looked_at) quiet_backends refl
