-- ===== src/Job/Walk/Tree.antt =====
-- The tree that a backend presents while nothing else changes it, and what the walks of
-- crates/core/src/job.rs are to make of it.
use pfnc.Prelude.{ℕ, suc, max, ◌≡◌, true, false, List, [], ◌∷◌, ◌++◌}
use pfnc.Effect.{ok}
use pfnc.Vfs.{VfsPath, EntryMeta, is_dir}
use pfnc.Vfs.Interface.{Vfs, PathLib}
use pfnc.Job.Walk.{CopyItem, DeleteItem}

-- What `stat` says of an entry and, for a directory, the entries that `list_dir` says it has, each
-- with its own tree.
mutual
  pub data Tree : Type 0 where
    leaf : EntryMeta → Tree
    folder : EntryMeta → Forest → Tree

  pub data Forest : Type 0 where
    bare : Forest
    grown : EntryMeta → Tree → Forest → Forest

abbrev pub root_meta : Tree → EntryMeta
root_meta (leaf m) = m
root_meta (folder m _) = m

abbrev pub listing : Forest → List EntryMeta
listing bare = []
listing (grown e _ rest) = e ∷ listing rest

unfoldable mutual
  pub depth : Tree → ℕ
  depth (leaf _) = 1
  depth (folder _ kids) = suc (depth_all kids)

  pub depth_all : Forest → ℕ
  depth_all bare = 0
  depth_all (grown _ t rest) = max (depth t) (depth_all rest)

-- In state `w` the backend shows `t` at a path, and looking changes nothing.
module _ {W : Type 0} (vfs : Vfs W) (w : W) where
  abbrev mutual
    pub Presents : Tree → VfsPath → Type 0
    Presents (leaf m) p = (vfs.stat p w ≡ (ok m, w)) × (is_dir m.kind ≡ false)
    Presents (folder m kids) p =
        (vfs.stat p w ≡ (ok m, w))
        × (is_dir m.kind ≡ true)
        × (vfs.list_dir p w ≡ (ok (listing kids), w))
        × PresentsAll kids

    pub PresentsAll : Forest → Type 0
    PresentsAll bare = Unit {0}
    PresentsAll (grown e t rest) = Presents t e.path × PresentsAll rest

-- Every entry with its place under `dst`, a directory before what it holds.
module _ (paths : PathLib) where
  unfoldable mutual
    pub copy_plan : Tree → VfsPath → VfsPath → List CopyItem
    copy_plan (leaf m) src dst = record { source = src; destination = dst; meta = m } ∷ []
    copy_plan (folder m kids) src dst =
        record { source = src; destination = dst; meta = m } ∷ copy_plan_all kids dst

    pub copy_plan_all : Forest → VfsPath → List CopyItem
    copy_plan_all bare dst = []
    copy_plan_all (grown e t rest) dst =
        copy_plan t e.path (paths.join dst e.name) ++ copy_plan_all rest dst

-- Every entry, a directory after what it holds.
unfoldable mutual
  pub delete_plan : Tree → VfsPath → List DeleteItem
  delete_plan (leaf m) p = record { path = p; meta = m } ∷ []
  delete_plan (folder m kids) p = delete_plan_all kids ++ (record { path = p; meta = m } ∷ [])

  pub delete_plan_all : Forest → List DeleteItem
  delete_plan_all bare = []
  delete_plan_all (grown e t rest) = delete_plan t e.path ++ delete_plan_all rest
