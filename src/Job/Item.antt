-- ===== src/Job/Item.antt =====
-- crates/core/src/job.rs: what a job does with one planned entry.
use pfnc.Prelude.{true, false, none, some}
use pfnc.Effect.{M, map_err, effect, ignore, ◌>>◌}
use pfnc.Vfs.{VfsError, JobError, vfs_error, file, dir, other, symlink, EntryKind, is_dir}
use pfnc.Vfs.Interface.{Vfs}
use pfnc.Job.{Env, update, report_now, add_file}
use pfnc.Job.Walk.{CopyItem, DeleteItem}
use pfnc.Transport.{Transport}

module _ {W : Type 0} (env : Env W) where
  -- `progress.files_done += 1; report(progress.clone())`
  abbrev pub finish_file : W → W
  finish_file w = report_now env (update env add_file w)

  -- The last case of `apply_copy_item`.
  unfoldable pub transfer_item : Vfs W → Vfs W → Transport W → CopyItem → M W JobError (Unit {0})
  transfer_item src dst transport item = do
    transport.transfer src item.source dst item.destination item.meta.permissions
    effect finish_file

  unfoldable pub apply_by_kind :
      Vfs W → Vfs W → Transport W → CopyItem → EntryKind → M W JobError (Unit {0})
  unfolding transfer_item
  apply_by_kind src dst transport item dir =
      map_err vfs_error (dst.mkdir item.destination item.meta.permissions)
  apply_by_kind src dst transport item (symlink (some target)) =
      ignore (dst.symlink target item.destination)
  apply_by_kind src dst transport item (symlink none) = transfer_item src dst transport item
  apply_by_kind src dst transport item file = transfer_item src dst transport item
  apply_by_kind src dst transport item other = transfer_item src dst transport item

  unfoldable pub apply_copy_item : Vfs W → Vfs W → Transport W → CopyItem → M W JobError (Unit {0})
  unfolding apply_by_kind
  apply_copy_item src dst transport item = apply_by_kind src dst transport item item.meta.kind

module _ {W : Type 0} where
  unfoldable pub apply_delete_item : Vfs W → DeleteItem → M W VfsError (Unit {0})
  apply_delete_item vfs item = elim (is_dir item.meta.kind) [
    | true ↦ vfs.remove_dir item.path false
    | false ↦ vfs.remove_file item.path
  ]
