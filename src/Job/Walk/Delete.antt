-- ===== src/Job/Walk/Delete.antt =====
-- crates/core/src/job.rs, `walk_for_delete` on a directory that holds a given tree, and the order of its plan.
use pfnc.Prelude.{ℕ, zero, suc, ◌≤◌, ◌∙◌, ◌≡◌, List, ◌++◌, append-nil, append_assoc, arith}
use pfnc.Effect.{ok, for_each}
use pfnc.Vfs.{VfsPath}
use pfnc.Vfs.Interface.{Vfs}
use pfnc.Job.Walk.{DeleteItem, walk_for_delete}
use pfnc.Job.Walk.Tree.{
  Tree, leaf, folder, Forest, bare, grown, listing, depth, depth_all, Presents, PresentsAll,
  delete_plan, delete_plan_all,
}

module _ {W : Type 0} (vfs : Vfs W) (w : W) where
  mutual
    unfolding walk_for_delete delete_plan depth for_each

    walk_onto :
        (t : Tree) (fuel : ℕ) (p : VfsPath) (out : List DeleteItem)
        → Presents vfs w t p
        → depth t ≤ fuel
        → walk_for_delete vfs fuel p out w ≡ (ok (out ++ delete_plan t p), w)
    walk_onto (leaf m) zero p out shown deep = absurd (omega arith)
    walk_onto (leaf m) (suc fuel) p out shown deep = rw (shown.0, shown.1)
    walk_onto (folder m kids) zero p out shown deep = absurd (omega arith)
    walk_onto (folder m kids) (suc fuel) p out shown deep =
        rw (shown.0, shown.1, shown.2, walk_all kids fuel out shown.3 (omega arith))
          (rw append_assoc)

    walk_all :
        (kids : Forest) (fuel : ℕ) (out : List DeleteItem)
        → PresentsAll vfs w kids
        → depth_all kids ≤ fuel
        → for_each (λ e. walk_for_delete vfs fuel e.path) (listing kids) out w
          ≡ (ok (out ++ delete_plan_all kids), w)
    walk_all bare fuel out shown deep = rw append-nil
    walk_all (grown e t rest) fuel out shown deep =
        rw (walk_onto t fuel e.path out shown.0 (omega arith))
          (walk_all rest fuel _ shown.1 (omega arith) ∙ rw append_assoc)

  -- For a tree that the backend presents and fuel of at least its depth, the walk succeeds, changes
  -- nothing, and appends every entry of the tree, a directory after all that it holds.
  pub walk_for_delete_lem :
      (t : Tree) (fuel : ℕ) (p : VfsPath) (out : List DeleteItem)
      → Presents vfs w t p
      → depth t ≤ fuel
      → walk_for_delete vfs fuel p out w ≡ (ok (out ++ delete_plan t p), w)
  walk_for_delete_lem t fuel p out shown deep = walk_onto t fuel p out shown deep
