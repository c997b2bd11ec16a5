-- ===== src/Job/Walk/Tests.antt =====
-- The walks over the directory of Fixtures.antt.
use pfnc.Prelude.{◌≡◌, refl, false, [], ◌∷◌, ◌++◌, codes, arith}
use pfnc.Effect.{ok}
use pfnc.Fixtures.{World, test_vfs, test_paths, d_meta, f_meta, fresh_world}
use pfnc.Job.Walk.{walk_for_copy, walk_for_delete}
use pfnc.Job.Walk.Tree.{Tree, leaf, folder, bare, grown, depth, Presents, copy_plan, delete_plan}
use pfnc.Job.Walk.Copy.{walk_for_copy_lem}
use pfnc.Job.Walk.Delete.{walk_for_delete_lem}

abbrev d_tree : Tree
d_tree = folder d_meta (grown f_meta (leaf f_meta) bare)

abbrev here : World
here = fresh_world [] false

d_tree-Presents : Presents test_vfs here d_tree (codes "/d")
d_tree-Presents = (refl, refl, refl, ((refl, refl), tt))

walk_for_copy_lem_example :
    walk_for_copy test_paths test_vfs 2 (codes "/d") (codes "/e/d") [] here
    ≡ (ok ([] ++ copy_plan test_paths d_tree (codes "/d") (codes "/e/d")), here)
unfolding depth
walk_for_copy_lem_example =
    walk_for_copy_lem test_paths test_vfs here d_tree 2 (codes "/d") (codes "/e/d") []
      d_tree-Presents (omega arith)

walk_for_delete_lem_example :
    walk_for_delete test_vfs 2 (codes "/d") [] here
    ≡ (ok ([] ++ delete_plan d_tree (codes "/d")), here)
unfolding depth
walk_for_delete_lem_example =
    walk_for_delete_lem test_vfs here d_tree 2 (codes "/d") [] d_tree-Presents (omega arith)

file_before_directory : walk_for_delete test_vfs 2 (codes "/d") [] here ≡ (
  ok (
      record { path = codes "/d/f"; meta = f_meta }
      ∷ record { path = codes "/d"; meta = d_meta }
      ∷ []),
  here,
)
unfolding walk_for_delete
file_before_directory = refl
