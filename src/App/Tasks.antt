-- ===== src/App/Tasks.antt =====
-- crates/app/src/actions.rs: the closures of the jobs, which run on threads of their own. `Shared` is what
-- a thread has in common with the program: the registry, the cells of plans and the world.
use pfnc.Prelude.{ℕ, Option, some, List, Str}
use pfnc.Effect.{M, Result, ok, err, out_of_fuel, map_err, map_err_run, ◌>>=◌}
use pfnc.Vfs.{VfsPath, VfsError, JobError, vfs_error, connection_lost, Location, EntryMeta}
use pfnc.Vfs.Interface.{Vfs, PathLib}
use pfnc.Archive.Fs.{ArchiveFormat}
use pfnc.Job.{Env, no_progress}
use pfnc.Job.Manager.{at}
use pfnc.Job.Sync.{SyncPlan, build_sync_plan}
use pfnc.Job.Sync.Execute.{execute_sync_plan}
use pfnc.Job.Tasks.{copy_job, delete_job, move_job, move_cross_backend}
use pfnc.Registry.{
  VfsRegistry, resolve, given, connect_and_cache, open_archive_and_cache, ConnectionProfile,
}
use pfnc.App.{Task}

pub record Shared (W : Type 0) : Type 0 where
  pub registry : VfsRegistry W
  pub cells : ℕ → Option SyncPlan
  pub world : W

-- What the closures use besides: the bounds of their loops, and what opens a backend.
pub record Threads (W ConnectError : Type 0) : Type 0 where
  pub env : Env W
  pub paths : PathLib
  pub order : List EntryMeta → List EntryMeta
  pub depth : ℕ
  pub retries : ℕ
  pub rounds : ℕ
  pub connect : ConnectionProfile → M W ConnectError (Vfs W)
  pub show_connect_error : ConnectError → Str
  pub warm_remote_os_probe : Vfs W → W → W
  pub open_archive : Vfs W → VfsPath → ArchiveFormat → M W VfsError (Vfs W)

module _ {W : Type 0} where
  -- A call on the world alone, and one that also leaves another registry.
  abbrev pub on_world :
      {A : Type 0} → Result JobError A × W → Shared W → Result JobError A × Shared W
  on_world (r, w) s = (r, record s { world = w })

  abbrev pub store_registry :
      Result JobError (VfsRegistry W) × W → Shared W → Result JobError (Unit {0}) × Shared W
  store_registry (ok r, w) s = (ok tt, record s { registry = r; world = w })
  store_registry (err e, w) s = (err e, record s { world = w })
  store_registry (out_of_fuel, w) s = (out_of_fuel, record s { world = w })

  -- `plan_cell.set(plan)`
  abbrev pub store_plan :
      ℕ → Result JobError SyncPlan × W → Shared W → Result JobError (Unit {0}) × Shared W
  store_plan cell (ok plan, w) s =
      (ok tt, record s { cells = at cell (some plan) s.cells; world = w })
  store_plan cell (err e, w) s = (err e, record s { world = w })
  store_plan cell (out_of_fuel, w) s = (out_of_fuel, record s { world = w })

  -- `if let Ok(vfs) = registry.resolve(&location) { let _ = vfs.fast_transport(); }`
  abbrev pub warm : Result VfsError (Vfs W) → Shared W → Result JobError (Unit {0}) × Shared W
  warm (ok vfs) s = (ok tt, record s { world = (vfs.fast_transport s.world).1 })
  warm _ s = (ok tt, s)

  module _ {ConnectError : Type 0} (threads : Threads W ConnectError) where
    unfoldable pub backend : VfsRegistry W → Location → M W JobError (Vfs W)
    unfolding resolve
    backend r location = map_err vfs_error (given (resolve r location))

    unfoldable pub run_task : Task W → M (Shared W) JobError (Unit {0})
    unfolding open_archive_and_cache delete_job build_sync_plan execute_sync_plan copy_job move_job
        move_cross_backend connect_and_cache
    run_task (Task.opens_archive location) s =
        store_registry
          (map_err_run vfs_error (
            open_archive_and_cache threads.paths threads.open_archive location s.registry
              (threads.env.report no_progress s.world)))
          s
    run_task (Task.deletes location items) s =
        on_world
          ((backend s.registry location >>= λ vfs.
              delete_job threads.env threads.paths threads.depth threads.retries threads.rounds vfs
                items)
            s.world)
          s
    run_task (Task.scans src dst src_root dst_root delete_extraneous cell) s =
        store_plan cell
          (build_sync_plan threads.env threads.paths threads.order threads.depth src dst src_root
            dst_root delete_extraneous s.world)
          s
    run_task (Task.syncs src_location dst_location plan quic) s =
        on_world
          ((backend s.registry src_location >>= λ src. backend s.registry dst_location >>= λ dst.
              execute_sync_plan threads.env threads.retries threads.rounds src dst src_location
                dst_location plan quic)
            s.world)
          s
    run_task (Task.copies src dst src_location dst_location items dest_dir quic) s =
        on_world
          (copy_job threads.env threads.paths threads.depth threads.retries threads.rounds src dst
            src_location dst_location items dest_dir quic s.world)
          s
    run_task (Task.moves_across src dst src_location dst_location items dest_dir quic) s =
        on_world
          (move_cross_backend threads.env threads.paths threads.depth threads.retries threads.rounds
            src dst src_location dst_location items dest_dir quic s.world)
          s
    run_task (Task.moves location pairs) s =
        on_world ((backend s.registry location >>= λ vfs. move_job threads.env vfs pairs) s.world) s
    run_task (Task.connects profile) s =
        store_registry
          (map_err_run (λ e. vfs_error (connection_lost (threads.show_connect_error e)))
            (connect_and_cache threads.connect threads.warm_remote_os_probe profile s.registry
              (threads.env.report no_progress s.world)))
          s
    run_task (Task.warms location) s = warm (resolve s.registry location) s
