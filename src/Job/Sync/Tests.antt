-- ===== src/Job/Sync/Tests.antt =====
-- Syncs with the directory of Fixtures.antt.
use pfnc.Prelude.{
  ◌≡◌, refl, Bool, true, false, none, List, [], ◌∷◌, codes, str_eq, if◌then◌else◌, arith, map,
}
use pfnc.Effect.{ok, Result, pure, fail}
use pfnc.Vfs.{VfsError, not_found}
use pfnc.Fixtures.{World, test_env, test_vfs, test_paths, d_meta, f_meta, fresh_world}
use pfnc.Job.Walk.{walk_for_copy}
use pfnc.Job.Walk.Tree.{Tree, leaf, folder, bare, grown, depth}
use pfnc.Job.Sync.{
  SyncPlan, SyncCopyItem, empty_plan, build_sync_plan, push_full_copy, as_copy_item,
}
use pfnc.Job.Sync.Scan.{Looks, build_sync_plan-Looks}
use pfnc.Job.Sync.Full.{push_full_copy-walk_for_copy}

abbrev here : World
here = fresh_world (1 ∷ 2 ∷ []) false

abbrev StaysHere : World → Type 0
StaysHere w = w.pending ≡ 1 ∷ 2 ∷ []

either_way :
    {A : Type 0} (b : Bool) (x y : Result VfsError A × World)
    → StaysHere x.1
    → StaysHere y.1
    → StaysHere (if b then x else y).1
either_way true x y h k = h
either_way false x y h k = k

test_vfs-Looks : Looks StaysHere test_vfs
test_vfs-Looks = record {
  looks_list = λ p w h. either_way (str_eq p (codes "/d")) _ _ h h;
  looks_stat = λ p w h.
      either_way (str_eq p (codes "/d")) _
        (if str_eq p (codes "/d/f") then pure f_meta w else fail (not_found p) w) h
        (either_way (str_eq p (codes "/d/f")) _ _ h h);
  looks_hash = λ p w h. h;
}

build_sync_plan-Looks_example :
    StaysHere
      (build_sync_plan test_env test_paths
        (λ es. es)
        5
        test_vfs
        test_vfs
        (codes "/d")
        (codes "/d")
        true
        here).1
build_sync_plan-Looks_example =
    build_sync_plan-Looks StaysHere test_env test_paths (λ es. es) 5 test_vfs test_vfs (codes "/d")
      (codes "/d") true here test_vfs-Looks test_vfs-Looks (λ v h. h) (λ p v h. h) refl

-- The file of the directory has no time, so that it is copied again.
abbrev again : SyncPlan
again = record {
  copy =
      record {
        src_path = codes "/d/f";
        dst_path = codes "/d/f";
        meta = f_meta;
        replace_existing = none;
      }
      ∷ [];
  delete = [];
  bytes_total = 3;
  files_to_copy = 1;
  items_to_delete = 0;
}

abbrev d_tree : Tree
d_tree = folder d_meta (grown f_meta (leaf f_meta) bare)

push_full_copy-walk_for_copy_example :
    (items : List SyncCopyItem) × (push_full_copy test_paths test_vfs 2
        (codes "/e")
        d_meta
        none
        empty_plan
        here
      ≡ (ok (record empty_plan { copy = items }), here))
    × (walk_for_copy test_paths test_vfs 2 (codes "/d") (codes "/e") [] here
        ≡ (ok (map as_copy_item items), here))
unfolding depth
push_full_copy-walk_for_copy_example =
    push_full_copy-walk_for_copy test_paths test_vfs here d_tree 2 (codes "/e") none empty_plan
      (refl, refl, refl, ((refl, refl), tt)) (refl, tt, tt) (omega arith)
