-- ===== src/Job/Sync/Full.antt =====
-- crates/core/src/job.rs: `push_full_copy` beside `walk_for_copy`.
use pfnc.Prelude.{
  ℕ, zero, suc, ◌≤◌, ◌≡◌, ◌∙◌, refl, ap, sym, Option, none, List, [], ◌∷◌, ◌++◌, map, arith,
  append-nil, append_assoc, map-append, subst,
}
use pfnc.Effect.{ok, for_each}
use pfnc.Vfs.{VfsPath, EntryMeta}
use pfnc.Vfs.Interface.{Vfs, PathLib}
use pfnc.Job.Walk.{walk_for_copy}
use pfnc.Job.Walk.Tree.{
  Tree, leaf, folder, Forest, bare, grown, listing, root_meta, depth, depth_all, Presents,
  PresentsAll, copy_plan, copy_plan_all,
}
use pfnc.Job.Walk.Copy.{walk_for_copy_lem}
use pfnc.Job.Sync.{SyncPlan, SyncCopyItem, push_copy, push_full_copy, as_copy_item}

-- The entries that `list_dir` returns are those that `stat` returns, with their paths.
abbrev mutual
  pub Listed : Tree → Type 0
  Listed (leaf m) = Unit {0}
  Listed (folder m kids) = ListedAll kids

  pub ListedAll : Forest → Type 0
  ListedAll bare = Unit {0}
  ListedAll (grown e t rest) = (e ≡ root_meta t) × Listed t × ListedAll rest

abbrev one_item : VfsPath → EntryMeta → Option EntryMeta → List SyncCopyItem
one_item dst m old =
    record { src_path = m.path; dst_path = dst; meta = m; replace_existing = old } ∷ []

module _ (paths : PathLib) where
  unfoldable mutual
    full_copies : Tree → VfsPath → Option EntryMeta → List SyncCopyItem
    full_copies (leaf m) dst old = one_item dst m old
    full_copies (folder m kids) dst old = one_item dst m old ++ full_copies_all kids dst

    full_copies_all : Forest → VfsPath → List SyncCopyItem
    full_copies_all bare dst = []
    full_copies_all (grown e t rest) dst =
        full_copies t (paths.join dst e.name) none ++ full_copies_all rest dst

abbrev onto : SyncPlan → List SyncCopyItem → SyncPlan
onto plan items = record plan { copy = plan.copy ++ items }

module _ {W : Type 0} (paths : PathLib) (src : Vfs W) (w : W) where
  mutual
    unfolding push_full_copy full_copies depth for_each

    push_onto :
        (t : Tree) (fuel : ℕ) (dst : VfsPath) (old : Option EntryMeta) (plan : SyncPlan)
        → Presents src w t (root_meta t).path
        → Listed t
        → depth t ≤ fuel
        → push_full_copy paths src fuel dst (root_meta t) old plan w
          ≡ (ok (onto plan (full_copies paths t dst old)), w)
    push_onto (leaf m) zero dst old plan shown listed deep = absurd (omega arith)
    push_onto (leaf m) (suc fuel) dst old plan shown listed deep = rw (push_full_copy, shown.1) refl
    push_onto (folder m kids) zero dst old plan shown listed deep = absurd (omega arith)
    push_onto (folder m kids) (suc fuel) dst old plan shown listed deep =
        rw (push_full_copy, shown.1, shown.2)
          (push_all kids fuel dst (push_copy dst m old plan) shown.3 listed (omega arith)
            ∙ rw append_assoc refl)

    push_all :
        (kids : Forest) (fuel : ℕ) (dst : VfsPath) (plan : SyncPlan)
        → PresentsAll src w kids
        → ListedAll kids
        → depth_all kids ≤ fuel
        → for_each
            (λ e. push_full_copy paths src fuel (paths.join dst e.name) e none)
            (listing kids)
            plan
            w
          ≡ (ok (onto plan (full_copies_all paths kids dst)), w)
    push_all bare fuel dst plan shown listed deep = rw append-nil refl
    push_all (grown e t rest) fuel dst plan shown listed deep = rw listed.0 (
        rw
          (push_onto t fuel _ none plan (subst (λ m. Presents src w t m.path) listed.0 shown.0)
            listed.1 (omega arith))
          (push_all rest fuel dst _ shown.1 listed.2 (omega arith) ∙ rw append_assoc refl))

  mutual
    unfolding full_copies copy_plan

    same_items :
        (t : Tree) (dst : VfsPath) (old : Option EntryMeta)
        → Listed t
        → map as_copy_item (full_copies paths t dst old) ≡ copy_plan paths t (root_meta t).path dst
    same_items (leaf m) dst old listed = refl
    same_items (folder m kids) dst old listed =
        ap (record { source = m.path; destination = dst; meta = m } ∷◌)
          (same_items_all kids dst listed)

    same_items_all :
        (kids : Forest) (dst : VfsPath)
        → ListedAll kids
        → map as_copy_item (full_copies_all paths kids dst) ≡ copy_plan_all paths kids dst
    same_items_all bare dst listed = refl
    same_items_all (grown e t rest) dst listed =
        map-append as_copy_item (full_copies paths t (paths.join dst e.name) none) _
        ∙ rw
            (
              same_items t (paths.join dst e.name) none listed.1,
              same_items_all rest dst listed.2,
              listed.0,
            )
            refl

  -- For a tree that the source presents, with the same metadata from `list_dir` as from `stat`, and fuel
  -- of at least its depth, `push_full_copy` appends to the plan of a sync what `walk_for_copy` returns
  -- to a copy job: the same sources, destinations and metadata in the same order.
  pub push_full_copy-walk_for_copy :
      (t : Tree) (fuel : ℕ) (dst : VfsPath) (old : Option EntryMeta) (plan : SyncPlan)
      → Presents src w t (root_meta t).path
      → Listed t
      → depth t ≤ fuel
      → (items : List SyncCopyItem) × (push_full_copy paths src fuel dst (root_meta t) old plan w
          ≡ (ok (record plan { copy = plan.copy ++ items }), w))
        × (walk_for_copy paths src fuel (root_meta t).path dst [] w
            ≡ (ok (map as_copy_item items), w))
  push_full_copy-walk_for_copy t fuel dst old plan shown listed deep = (
    full_copies paths t dst old,
    push_onto t fuel dst old plan shown listed deep,
    walk_for_copy_lem paths src w t fuel _ dst [] shown deep
        ∙ ap (λ items. (ok items, w)) (sym (same_items t dst old listed)),
  )
