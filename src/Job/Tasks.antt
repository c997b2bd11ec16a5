-- ===== src/Job/Tasks.antt =====
-- crates/core/src/job.rs: the jobs that copy, move and delete. `fuel` bounds the depth of the walks,
-- `retries` and `rounds` the loops of a transfer.
mod Counts
mod Cancel
mod Tests
use pfnc.Prelude.{
  ℕ, Bool, true, false, not, Option, none, some, List, [], ◌∷◌, length, filter, map, codes,
}
use pfnc.Prelude.Words.{add_word}
use pfnc.Effect.{M, pure, fail, map_err, total, effect, for_each, ◌>>=◌, ◌>>◌}
use pfnc.Vfs.{VfsPath, JobError, cancelled, vfs_error, unsupported, Location, EntryMeta, is_dir}
use pfnc.Vfs.Interface.{Vfs, PathLib}
use pfnc.Job.{JobProgress, no_progress, Env, update, report_now, now_at}
use pfnc.Job.Walk.{CopyItem, DeleteItem, walk_for_copy, walk_for_delete}
use pfnc.Job.Item.{apply_copy_item, apply_delete_item, finish_file}
use pfnc.Transport.{Transport, negotiate_transport}

-- `.sum()` of the sizes.
abbrev pub sum_word : List ℕ → ℕ
sum_word [] = 0
sum_word (n ∷ ns) = add_word n (sum_word ns)

abbrev pub files_of : List CopyItem → List CopyItem
files_of = filter (λ item. not (is_dir item.meta.kind))

abbrev pub copy_totals : List CopyItem → JobProgress
copy_totals plan = record no_progress {
  files_total = length (files_of plan);
  bytes_total = sum_word (map (λ item. item.meta.size) (files_of plan));
}

module _ {W : Type 0} (env : Env W) where
  -- `let mut progress = …; report(progress.clone())`
  abbrev pub start : JobProgress → W → W
  start p w = report_now env (env.store p w)

  -- `if cancel.is_cancelled() { return Err(JobError::Cancelled); }`
  abbrev pub check_cancelled : M W JobError (Unit {0})
  check_cancelled =
      total env.is_cancelled >>= λ stop. elim stop [ true ↦ fail cancelled | false ↦ pure tt ]

  pub copy_one : Vfs W → Vfs W → Transport W → CopyItem → Unit {0} → M W JobError (Unit {0})
  unfolding apply_copy_item
  copy_one src dst transport item _ = do
    check_cancelled
    effect (update env (now_at item.destination))
    apply_copy_item env src dst transport item

  unfoldable pub delete_one : Vfs W → DeleteItem → Unit {0} → M W JobError (Unit {0})
  unfolding apply_delete_item
  delete_one vfs item _ = do
    check_cancelled
    effect (update env (now_at item.path))
    map_err vfs_error (apply_delete_item vfs item)
    effect (finish_file env)

  pub move_one : Vfs W → VfsPath × VfsPath → Unit {0} → M W JobError (Unit {0})
  move_one vfs (from, to) _ = do
    check_cancelled
    effect (update env (now_at to))
    map_err vfs_error (vfs.rename from to)
    effect (finish_file env)

  module _ (paths : PathLib) (fuel retries rounds : ℕ) where
    plan_item : Vfs W → VfsPath → VfsPath → List CopyItem → M W JobError (List CopyItem)
    unfolding walk_for_copy
    plan_item src dest_dir item plan = elim (paths.file_name item) [
      | none ↦ fail (vfs_error (unsupported (codes "item has no file name")))
      | some name ↦
          map_err vfs_error (walk_for_copy paths src fuel item (paths.join dest_dir name) plan)
    ]

    unfoldable pub plan_copy : Vfs W → List VfsPath → VfsPath → M W JobError (List CopyItem)
    unfolding plan_item for_each
    plan_copy src items dest_dir = for_each (plan_item src dest_dir) items []

    unfoldable pub copy_job :
        Vfs W
        → Vfs W
        → Location
        → Location
        → List VfsPath
        → VfsPath
        → Bool
        → M W JobError (Unit {0})
    unfolding plan_copy copy_one negotiate_transport
    copy_job src dst src_location dst_location items dest_dir enable_quic_fast_path = do
      plan ← plan_copy src items dest_dir
      effect (start (copy_totals plan))
      transport ← total (
          negotiate_transport env retries rounds src_location dst_location src dst
            enable_quic_fast_path)
      for_each (copy_one src dst transport) plan tt

    unfoldable pub plan_delete : Vfs W → List VfsPath → M W JobError (List DeleteItem)
    unfolding walk_for_delete for_each
    plan_delete vfs items =
        for_each (λ item plan. map_err vfs_error (walk_for_delete vfs fuel item plan)) items []

    unfoldable pub delete_job : Vfs W → List VfsPath → M W JobError (Unit {0})
    unfolding plan_delete delete_one
    delete_job vfs items = do
      plan ← plan_delete vfs items
      effect (start (record no_progress { files_total = length plan }))
      for_each (delete_one vfs) plan tt

    unfoldable pub move_cross_backend :
        Vfs W
        → Vfs W
        → Location
        → Location
        → List VfsPath
        → VfsPath
        → Bool
        → M W JobError (Unit {0})
    unfolding copy_job delete_job
    move_cross_backend src dst src_location dst_location items dest_dir enable_quic_fast_path = do
      copy_job src dst src_location dst_location items dest_dir enable_quic_fast_path
      delete_job src items

  unfoldable pub move_job : Vfs W → List (VfsPath × VfsPath) → M W JobError (Unit {0})
  unfolding move_one for_each
  move_job vfs items = do
    effect (start (record no_progress { files_total = length items }))
    for_each (move_one vfs) items tt
