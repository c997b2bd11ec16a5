-- ===== src/Job/Walk/Copy.antt =====
-- crates/core/src/job.rs, `walk_for_copy` on a directory that holds a given tree.
use pfnc.Prelude.{ℕ, zero, suc, ◌≤◌, ◌∙◌, ◌≡◌, List, ◌++◌, append-nil, append_assoc, arith}
use pfnc.Effect.{ok, for_each, then_run}
use pfnc.Vfs.{VfsPath}
use pfnc.Vfs.Interface.{Vfs, PathLib}
use pfnc.Job.Walk.{CopyItem, walk_for_copy}
use pfnc.Job.Walk.Tree.{
  Tree, leaf, folder, Forest, bare, grown, listing, depth, depth_all, Presents, PresentsAll,
  copy_plan, copy_plan_all,
}

module _ {W : Type 0} (paths : PathLib) (src : Vfs W) (w : W) where
  mutual
    unfolding walk_for_copy copy_plan depth for_each

    walk_onto :
        (t : Tree) (fuel : ℕ) (p dst : VfsPath) (out : List CopyItem)
        → Presents src w t p
        → depth t ≤ fuel
        → walk_for_copy paths src fuel p dst out w ≡ (ok (out ++ copy_plan paths t p dst), w)
    walk_onto (leaf m) zero p dst out shown deep = absurd (omega arith)
    walk_onto (leaf m) (suc fuel) p dst out shown deep = rw (shown.0, then_run, shown.1)
    walk_onto (folder m kids) zero p dst out shown deep = absurd (omega arith)
    walk_onto (folder m kids) (suc fuel) p dst out shown deep =
        rw (shown.0, then_run, shown.1, shown.2)
          (walk_all kids fuel dst _ shown.3 (omega arith) ∙ rw append_assoc)

    walk_all :
        (kids : Forest) (fuel : ℕ) (dst : VfsPath) (out : List CopyItem)
        → PresentsAll src w kids
        → depth_all kids ≤ fuel
        → for_each
            (λ e. walk_for_copy paths src fuel e.path (paths.join dst e.name))
            (listing kids)
            out
            w
          ≡ (ok (out ++ copy_plan_all paths kids dst), w)
    walk_all bare fuel dst out shown deep = rw append-nil
    walk_all (grown e t rest) fuel dst out shown deep =
        rw (walk_onto t fuel e.path (paths.join dst e.name) out shown.0 (omega arith))
          (walk_all rest fuel dst _ shown.1 (omega arith) ∙ rw append_assoc)

  -- For a tree that the backend presents and fuel of at least its depth, the walk succeeds, changes
  -- nothing, and appends the plan of the tree.
  pub walk_for_copy_lem :
      (t : Tree) (fuel : ℕ) (p dst : VfsPath) (out : List CopyItem)
      → Presents src w t p
      → depth t ≤ fuel
      → walk_for_copy paths src fuel p dst out w ≡ (ok (out ++ copy_plan paths t p dst), w)
  walk_for_copy_lem t fuel p dst out shown deep = walk_onto t fuel p dst out shown deep
