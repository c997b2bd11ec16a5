-- ===== src/Job/Sync.antt =====
-- crates/core/src/job.rs: the plan of a sync. A `HashMap` of entries by name is the
-- list of its entries, one for each name; in which order `into_values` gives them is the parameter
-- `order`. `fuel` bounds the depth of the trees.
mod Scan
pub mod Execute
mod Full
mod Tests
use pfnc.Prelude.{
  ℕ, zero, suc, ◌*◌, ◌^◌, ◌-◌, Bool, true, false, not, ◌&&◌, Option, none, some, List, [], ◌∷◌,
  ◌++◌, map, length, filter, Str, str_eq, ltb, leb, ◌==◌, is_empty, if◌then◌else◌,
}
use pfnc.Effect.{M, pure, fail, exhausted, map_err, total, effect, for_each, ◌>>=◌, ◌>>◌}
use pfnc.Vfs.{
  VfsPath, VfsError, JobError, cancelled, vfs_error, Location, EntryKind, file, dir, other, symlink,
  EntryMeta, is_dir, same_kind,
}
use pfnc.Vfs.Interface.{Vfs, PathLib}
use pfnc.Job.{JobProgress, no_progress, Env, update, report_now, now_at}
use pfnc.Job.Walk.{CopyItem, DeleteItem, walk_for_delete}
use pfnc.Job.Item.{apply_copy_item}
use pfnc.Job.Tasks.{start, check_cancelled, delete_one, sum_word}
use pfnc.Transport.{Transport, negotiate_transport}

pub record SyncCopyItem : Type 0 where
  pub src_path : VfsPath
  pub dst_path : VfsPath
  pub meta : EntryMeta
  pub replace_existing : Option EntryMeta

pub record SyncPlan : Type 0 where
  pub copy : List SyncCopyItem
  pub delete : List DeleteItem
  pub bytes_total : ℕ
  pub files_to_copy : ℕ
  pub items_to_delete : ℕ

abbrev pub empty_plan : SyncPlan
empty_plan = record {
  copy = [];
  delete = [];
  bytes_total = 0;
  files_to_copy = 0;
  items_to_delete = 0;
}

unfoldable pub is_empty_plan : SyncPlan → Bool
is_empty_plan plan = is_empty plan.copy && is_empty plan.delete

-- `Duration::from_secs(2)`, in nanoseconds as the times are.
abbrev pub mtime_tolerance : ℕ
mtime_tolerance = 2 * 10 ^ 9

unfoldable pub mtime_looks_changed : Option ℕ → Option ℕ → Bool
mtime_looks_changed (some src) (some dst) =
    if leb dst src then ltb mtime_tolerance (src - dst) else false
mtime_looks_changed _ _ = true

-- The two hashes, and the times when there are no two hashes.
unfoldable pub hashes_differ : EntryMeta → EntryMeta → Option ℕ → Option ℕ → Bool
unfolding mtime_looks_changed
hashes_differ src_entry dst_entry (some src_hash) (some dst_hash) = not (src_hash == dst_hash)
hashes_differ src_entry dst_entry _ _ = mtime_looks_changed src_entry.modified dst_entry.modified

abbrev pub same_shape : EntryKind → EntryKind → Bool
same_shape file file = true
same_shape dir dir = true
same_shape other other = true
same_shape (symlink _) (symlink _) = true
same_shape _ _ = false

abbrev pub push_copy : VfsPath → EntryMeta → Option EntryMeta → SyncPlan → SyncPlan
push_copy dst_path meta old plan = record plan {
  copy =
      plan.copy
      ++ (record { src_path = meta.path; dst_path = dst_path; meta = meta; replace_existing = old }
          ∷ []);
}

-- `HashMap::insert`, `collect`, and `remove`, which returns the entry too.
abbrev pub without : Str → List EntryMeta → List EntryMeta
without name = filter (λ e. not (str_eq e.name name))

abbrev pub by_name : List EntryMeta → List EntryMeta → List EntryMeta
by_name seen [] = seen
by_name seen (e ∷ es) = by_name (without e.name seen ++ (e ∷ [])) es

abbrev pub named : Str → List EntryMeta → Option EntryMeta
named name [] = none
named name (e ∷ es) = if str_eq e.name name then some e else named name es

module _ {W : Type 0} (src dst : Vfs W) where
  -- The rest of `file_needs_copy`, once it is known whether the sizes are equal.
  unfoldable pub compare_contents : EntryMeta → EntryMeta → Bool → M W VfsError Bool
  unfolding hashes_differ
  compare_contents src_entry dst_entry false = pure true
  compare_contents src_entry dst_entry true = do
    src_hash ← src.quick_hash src_entry.path
    dst_hash ← dst.quick_hash dst_entry.path
    pure (hashes_differ src_entry dst_entry src_hash dst_hash)

  unfoldable pub file_needs_copy : EntryMeta → EntryMeta → M W VfsError Bool
  unfolding compare_contents
  file_needs_copy src_entry dst_entry =
      compare_contents src_entry dst_entry (src_entry.size == dst_entry.size)

module _ {W : Type 0} (paths : PathLib) (src : Vfs W) where
  -- `src_path` is `meta.path` at every call.
  unfoldable pub push_full_copy :
      ℕ → VfsPath → EntryMeta → Option EntryMeta → SyncPlan → M W VfsError SyncPlan
  unfolding for_each
  push_full_copy zero dst_path meta old plan = exhausted
  push_full_copy (suc fuel) dst_path meta old plan = elim (is_dir meta.kind) [
    | true ↦ src.list_dir meta.path >>= λ entries.
        for_each (λ e. push_full_copy fuel (paths.join dst_path e.name) e none) entries
          (push_copy dst_path meta old plan)
    | false ↦ pure (push_copy dst_path meta old plan)
  ]

  module _ (dst : Vfs W) where
    -- `diff_entry` for entries of one shape; `diff` is `diff_dir`.
    diff_same :
        (VfsPath → VfsPath → SyncPlan → M W VfsError SyncPlan)
        → EntryMeta
        → EntryMeta
        → VfsPath
        → SyncPlan
        → EntryKind
        → M W VfsError SyncPlan
    unfolding file_needs_copy
    diff_same diff src_entry dst_entry dst_path plan dir = diff src_entry.path dst_path plan
    diff_same diff src_entry dst_entry dst_path plan (symlink _) = pure (
        if same_kind src_entry.kind dst_entry.kind
        then plan
        else push_copy dst_path src_entry (some dst_entry) plan)
    diff_same diff src_entry dst_entry dst_path plan file =
        file_needs_copy src dst src_entry dst_entry >>= λ needs.
        pure (if needs then push_copy dst_path src_entry none plan else plan)
    diff_same diff src_entry dst_entry dst_path plan other = pure plan

    unfoldable pub diff_entry :
        ℕ
        → (VfsPath → VfsPath → SyncPlan → M W VfsError SyncPlan)
        → EntryMeta
        → EntryMeta
        → VfsPath
        → SyncPlan
        → M W VfsError SyncPlan
    unfolding diff_same push_full_copy
    diff_entry fuel diff src_entry dst_entry dst_path plan =
        elim (same_shape src_entry.kind dst_entry.kind) [
          | false ↦ push_full_copy fuel dst_path src_entry (some dst_entry) plan
          | true ↦ diff_same diff src_entry dst_entry dst_path plan src_entry.kind
        ]

    -- One turn of the loop of `diff_dir`: an entry of the source, with what the map holds for its name.
    diff_found :
        ℕ
        → (VfsPath → VfsPath → SyncPlan → M W VfsError SyncPlan)
        → EntryMeta
        → VfsPath
        → Option EntryMeta
        → SyncPlan
        → M W VfsError SyncPlan
    unfolding diff_entry push_full_copy
    diff_found fuel diff src_entry dst_path none plan =
        push_full_copy fuel dst_path src_entry none plan
    diff_found fuel diff src_entry dst_path (some dst_entry) plan =
        diff_entry fuel diff src_entry dst_entry dst_path plan

    -- The loop, with the map as it is left at its end.
    unfoldable pub diff_entries :
        ℕ
        → (VfsPath → VfsPath → SyncPlan → M W VfsError SyncPlan)
        → VfsPath
        → List EntryMeta
        → List EntryMeta
        → SyncPlan
        → M W VfsError (SyncPlan × List EntryMeta)
    unfolding diff_found
    diff_entries fuel diff dst_dir [] rest plan = pure (plan, rest)
    diff_entries fuel diff dst_dir (e ∷ es) rest plan =
        diff_found fuel diff e (paths.join dst_dir e.name) (named e.name rest) plan
        >>= diff_entries fuel diff dst_dir es (without e.name rest)

    unfoldable pub push_leftovers : ℕ → List EntryMeta → SyncPlan → M W VfsError SyncPlan
    unfolding walk_for_delete for_each
    push_leftovers fuel leftovers plan =
        for_each (λ e. walk_for_delete dst fuel e.path) leftovers plan.delete >>= λ doomed.
        pure (record plan { delete = doomed })

    module _ (order : List EntryMeta → List EntryMeta) (delete_extraneous : Bool) where
      unfoldable pub diff_dir : ℕ → VfsPath → VfsPath → SyncPlan → M W VfsError SyncPlan
      unfolding diff_entries push_leftovers
      diff_dir zero src_dir dst_dir plan = exhausted
      diff_dir (suc fuel) src_dir dst_dir plan = do
        src_entries ← src.list_dir src_dir
        dst_entries ← dst.list_dir dst_dir
        (plan', rest) ←
            diff_entries fuel (diff_dir fuel) dst_dir src_entries (by_name [] dst_entries) plan
        if delete_extraneous then push_leftovers fuel (order rest) plan' else pure plan'

abbrev pub as_copy_item : SyncCopyItem → CopyItem
as_copy_item i = record { source = i.src_path; destination = i.dst_path; meta = i.meta }

abbrev pub sync_files : List SyncCopyItem → List SyncCopyItem
sync_files = filter (λ i. not (is_dir i.meta.kind))

abbrev pub with_totals : SyncPlan → SyncPlan
with_totals plan = record plan {
  files_to_copy = length (sync_files plan.copy);
  bytes_total = sum_word (map (λ i. i.meta.size) (sync_files plan.copy));
  items_to_delete = length plan.delete;
}

abbrev pub sync_totals : SyncPlan → JobProgress
sync_totals plan = record no_progress {
  files_total = plan.files_to_copy;
  bytes_total = plan.bytes_total;
}

module _ {W : Type 0} (env : Env W) where
  unfoldable pub build_sync_plan :
      PathLib
      → (List EntryMeta → List EntryMeta)
      → ℕ
      → Vfs W
      → Vfs W
      → VfsPath
      → VfsPath
      → Bool
      → M W JobError SyncPlan
  unfolding diff_dir
  build_sync_plan paths order fuel src dst src_root dst_root delete_extraneous = do
    check_cancelled env
    plan ←
        map_err vfs_error
          (diff_dir paths src dst order delete_extraneous fuel src_root dst_root empty_plan)
    effect (env.report (sync_totals (with_totals plan)))
    pure (with_totals plan)
