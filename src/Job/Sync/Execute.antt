-- ===== src/Job/Sync/Execute.antt =====
-- crates/core/src/job.rs: `execute_sync_plan`.
use pfnc.Prelude.{ℕ, Bool, true, false, Option, none, some}
use pfnc.Effect.{M, pure, map_err, total, effect, for_each, ◌>>=◌, ◌>>◌}
use pfnc.Vfs.{VfsPath, VfsError, JobError, vfs_error, Location, EntryMeta, is_dir}
use pfnc.Vfs.Interface.{Vfs}
use pfnc.Job.{Env, update, now_at}
use pfnc.Job.Item.{apply_copy_item}
use pfnc.Job.Tasks.{start, check_cancelled, delete_one}
use pfnc.Transport.{Transport, negotiate_transport}
use pfnc.Job.Sync.{SyncCopyItem, SyncPlan, as_copy_item, sync_totals}

module _ {W : Type 0} (env : Env W) where
  -- `if let Some(old) = &item.replace_existing`
  remove_old : Vfs W → VfsPath → Option EntryMeta → M W VfsError (Unit {0})
  remove_old dst path none = pure tt
  remove_old dst path (some old) = elim (is_dir old.kind) [
    | true ↦ dst.remove_dir path true
    | false ↦ dst.remove_file path
  ]

  pub sync_one : Vfs W → Vfs W → Transport W → SyncCopyItem → Unit {0} → M W JobError (Unit {0})
  unfolding remove_old apply_copy_item
  sync_one src dst transport item _ = do
    check_cancelled env
    map_err vfs_error (remove_old dst item.dst_path item.replace_existing)
    effect (update env (now_at item.dst_path))
    apply_copy_item env src dst transport (as_copy_item item)

  unfoldable pub execute_sync_plan :
      ℕ → ℕ → Vfs W → Vfs W → Location → Location → SyncPlan → Bool → M W JobError (Unit {0})
  unfolding sync_one delete_one negotiate_transport for_each
  execute_sync_plan retries rounds src dst src_location dst_location plan enable_quic_fast_path = do
    transport ← total (
        negotiate_transport env retries rounds src_location dst_location src dst
          enable_quic_fast_path)
    effect (start env (sync_totals plan))
    for_each (sync_one src dst transport) plan.copy tt
    for_each (delete_one env dst) plan.delete tt
