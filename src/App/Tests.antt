-- ===== src/App/Tests.antt =====
-- crates/app/src/actions.rs on a program with both panels on one disk.
use mathlib.Core.Option
use pfnc.Prelude.{
  ℕ, ◌<◌, ◌≡◌, refl, sym, subst, inl, inr, false, Option, none, some, List, [], ◌∷◌, str_eq, codes,
  leb, ◌/◌, arith, Bool-cases, length,
}
use pfnc.Prelude.Words.{isize_bound}
use pfnc.Effect.{ok, err, pure, ok-injective, err-ne-ok}
use pfnc.Vfs.{VfsPath, local, remote, archive, EntryMeta}
use pfnc.Keys.{f_key, char}
use pfnc.Panel.{PanelState}
use pfnc.Job.{no_progress}
use pfnc.Job.Manager.{new_manager}
use pfnc.Job.Sync.{SyncPlan, build_sync_plan}
use pfnc.Config.{default_config}
use pfnc.Registry.{new_registry, resolve}
use pfnc.Fixtures.{World, test_vfs, test_env, test_paths, fresh_world, f_meta}
use pfnc.App.{App, Libs, Mode, browsing, confirm, running, JobKind, Task, ConfirmPurpose, left_side}
use pfnc.App.Dispatch.{handle_key}
use pfnc.App.Tasks.{Threads, run_task}
use pfnc.App.Panels.{IsSound, AreShort}
use pfnc.App.SyncFlow.{ScanLeads, run_task-ScanLeads, shared_of, with_shared}

-- Whole numbers stand for the floats.
abbrev pub test_libs : Libs ℕ
test_libs = record {
  describe = λ _. codes "error";
  paths = test_paths;
  bindings_order = λ b. b;
  selected_order = λ s. s;
  default_username = codes "me";
  as_f64 = λ n. n;
  ge_1024 = λ n. leb 1024 n;
  div_1024 = λ n. n / 1024;
  show_tenths = λ _. codes "some";
}

-- `/d` with the cursor on its file.
abbrev d_panel : PanelState
d_panel = record {
  location = local;
  cwd = codes "/d";
  entries = f_meta ∷ [];
  selected = [];
  cursor = 0;
  scroll_offset = 0;
  viewport_height = 10;
  quic_available = false;
}

abbrev pub app_in : Mode → App World
app_in mode = record {
  registry = new_registry test_vfs;
  left = d_panel;
  right = d_panel;
  active = left_side;
  mode = mode;
  jobs = new_manager;
  background_jobs = [];
  status = none;
  should_quit = false;
  edit_request = none;
  keymap = (codes "delete", f_key 8) ∷ (codes "copy", f_key 5) ∷ [];
  config = default_config;
  tasks = λ _. none;
  cells = λ _. none;
  next_cell = 1;
  world = fresh_world [] false;
}

pub disk_short :
    (p : VfsPath) (w : World) (es : List EntryMeta)
    → (test_vfs.list_dir p w).0 ≡ ok es
    → length es < isize_bound
disk_short p w es h = elim (Bool-cases (str_eq p (codes "/d"))) [
  | inl here ↦
      let same : f_meta ∷ [] ≡ es = ok-injective (rw here at h) in rw (← same) (omega arith)
  | inr elsewhere ↦ absurd (err-ne-ok (rw elsewhere at h))
]

disk-AreShort : AreShort (new_registry test_vfs)
unfolding resolve
disk-AreShort local vfs found p w es h =
    disk_short p w es (subst (λ v. (v.list_dir p w).0 ≡ ok es) (sym (ok-injective found)) h)
disk-AreShort (remote _) vfs found p w es h = absurd (err-ne-ok found)
disk-AreShort (archive _ _) vfs found p w es h = absurd (err-ne-ok found)

app_in-IsSound : (mode : Mode) → IsSound (app_in mode)
app_in-IsSound mode = (omega arith, omega arith, disk-AreShort)

-- `F8` asks before it deletes, and `y` starts the job.
abbrev question : Mode
question = confirm (record {
  message = codes "Delete '/d/f'?";
  purpose = ConfirmPurpose.delete (codes "/d/f" ∷ []);
})

test_asks : handle_key test_libs (f_key 8) (app_in browsing) ≡ some (app_in question)
unfolding handle_key Option.bind
test_asks = refl

abbrev deleted : Option (App World) → Option (Task World)
deleted none = none
deleted (some app) = app.tasks 0

test_confirms :
    deleted (handle_key test_libs (char b'y') (app_in question))
    ≡ some (Task.deletes local (codes "/d/f" ∷ []))
unfolding handle_key new_manager
test_confirms = refl

abbrev copying : Mode
copying =
    running (record {
      job_id = 3;
      title = codes "Copying";
      progress = no_progress;
      kind = JobKind.file_op;
    })

abbrev pub test_threads : Threads World (Unit {0})
test_threads = record {
  env = test_env;
  paths = test_paths;
  order = λ es. es;
  depth = 3;
  retries = 3;
  rounds = 3;
  connect = λ _ w. (err tt, w);
  show_connect_error = λ _. codes "refused";
  warm_remote_os_probe = λ _ w. w;
  open_archive = λ vfs _ _. pure vfs;
}

abbrev scanning : Mode
scanning = running (record {
  job_id = 3;
  title = codes "Scanning for sync";
  progress = no_progress;
  kind = JobKind.scan_sync local local 0;
})

abbrev scan_d : Task World
scan_d = Task.scans test_vfs test_vfs (codes "/d") (codes "/d") false 0

scan_ends : (run_task test_threads scan_d (shared_of (app_in scanning))).0 ≡ ok tt
unfolding run_task
scan_ends = refl

run_task-ScanLeads_example :
    (plan : SyncPlan) × ((build_sync_plan test_env test_paths
        (λ es. es)
        3
        test_vfs
        test_vfs
        (codes "/d")
        (codes "/d")
        false
        (fresh_world [] false)).0
      ≡ ok plan)
    × ScanLeads test_libs
        (with_shared
          (run_task test_threads scan_d (shared_of (app_in scanning))).1
          (app_in scanning))
        plan
        local
        local
        3
run_task-ScanLeads_example =
    run_task-ScanLeads test_libs test_threads (app_in scanning)
      (record {
        job_id = 3;
        title = codes "Scanning for sync";
        progress = no_progress;
        kind = JobKind.scan_sync local local 0;
      })
      test_vfs test_vfs (codes "/d") (codes "/d") false local local 0 refl refl refl scan_ends
