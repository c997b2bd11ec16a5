-- ===== src/Job/Walk.antt =====
-- crates/core/src/job.rs, `walk_for_copy` and `walk_for_delete`. Their recursion follows the tree on
-- the disk, so it takes fuel here; Job/Walk/Tree relates the fuel to the depth of the tree.
pub mod Tree
pub mod Copy
mod Delete
mod Tests
use pfnc.Prelude.{ℕ, zero, suc, Bool, true, false, List, [], ◌∷◌, ◌++◌}
use pfnc.Effect.{M, pure, exhausted, for_each, ◌>>=◌}
use pfnc.Vfs.{VfsPath, VfsError, EntryMeta, is_dir}
use pfnc.Vfs.Interface.{Vfs, PathLib}

-- `(source_path, destination_path, metadata)`
abbrev pub CopyItem : Type 0
CopyItem = record { source : VfsPath; destination : VfsPath; meta : EntryMeta }

abbrev pub DeleteItem : Type 0
DeleteItem = record { path : VfsPath; meta : EntryMeta }

module _ {W : Type 0} (paths : PathLib) (src : Vfs W) where
  unfoldable pub walk_for_copy :
      ℕ → VfsPath → VfsPath → List CopyItem → M W VfsError (List CopyItem)
  unfolding for_each
  walk_for_copy zero src_path dst_path out = exhausted
  walk_for_copy (suc fuel) src_path dst_path out = do
    meta ← src.stat src_path
    let out' = out ++ (record { source = src_path; destination = dst_path; meta = meta } ∷ [])
    elim (is_dir meta.kind) [
      | true ↦ src.list_dir src_path >>= λ entries.
          for_each (λ e. walk_for_copy fuel e.path (paths.join dst_path e.name)) entries out'
      | false ↦ pure out'
    ]

module _ {W : Type 0} (vfs : Vfs W) where
  unfoldable pub walk_for_delete : ℕ → VfsPath → List DeleteItem → M W VfsError (List DeleteItem)
  unfolding for_each
  walk_for_delete zero path out = exhausted
  walk_for_delete (suc fuel) path out = do
    meta ← vfs.stat path
    out' ← elim (is_dir meta.kind) [
      | true ↦
          vfs.list_dir path >>= λ entries. for_each (λ e. walk_for_delete fuel e.path) entries out
      | false ↦ pure out
    ]
    pure (out' ++ (record { path = path; meta = meta } ∷ []))
