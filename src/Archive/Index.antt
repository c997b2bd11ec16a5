-- ===== src/Archive/Index.antt =====
-- crates/vfs-archive/src/index.rs, `build_index`. The `HashMap` by path is the list of its entries, one for
-- each path; in which order `values` gives them is the parameter `order`, and `before` is the order of
-- `Utf8Path`. The climb to the root takes fuel.
pub mod Climb
pub mod Anchored
pub mod Keys
use mathlib.Core.Option
use pfnc.Prelude.{
  ℕ, zero, suc, Bool, true, false, not, ◌||◌, ◌&&◌, Option, none, some, List, [], ◌∷◌, ◌++◌, Str,
  str_eq, filter, is_empty, if◌then◌else◌, sort_by,
}
use pfnc.Vfs.{VfsPath, EntryKind, file, dir, symlink}
use pfnc.Vfs.Interface.{PathLib}
use pfnc.Archive.{RawEntry, ArchiveEntry, sanitize_path, sanitize_symlink_target, root_path}

abbrev pub has_path : VfsPath → List VfsPath → Bool
has_path p [] = false
has_path p (q ∷ qs) = str_eq q p || has_path p qs

abbrev pub contains_key : VfsPath → List ArchiveEntry → Bool
contains_key p [] = false
contains_key p (e ∷ es) = str_eq e.path p || contains_key p es

abbrev pub insert : ArchiveEntry → List ArchiveEntry → List ArchiveEntry
insert e es = filter (λ x. not (str_eq x.path e.path)) es ++ (e ∷ [])

abbrev pub raw_kind : RawEntry → EntryKind
raw_kind raw =
    if raw.is_symlink
    then symlink (Option.bind raw.symlink_target sanitize_symlink_target)
    else if raw.is_dir
    then dir
    else file

-- One turn of the first loop.
abbrev pub insert_at : RawEntry → Option VfsPath → List ArchiveEntry → List ArchiveEntry
insert_at raw none es = es
insert_at raw (some path) es =
    insert
      (record {
        path = path;
        kind = raw_kind raw;
        size = raw.size;
        modified = raw.modified;
        permissions = raw.permissions;
      })
      es

unfoldable pub insert_raws : List RawEntry → List ArchiveEntry → List ArchiveEntry
unfolding sanitize_path
insert_raws [] es = es
insert_raws (raw ∷ raws) es = insert_raws raws (insert_at raw (sanitize_path raw.raw_path) es)

abbrev pub synthesized : VfsPath → ArchiveEntry
synthesized path = record { path = path; kind = dir; size = 0; modified = none; permissions = none }

-- `entry(dir_path).or_insert(…)`, for each of `to_add`.
abbrev pub or_insert : VfsPath → List ArchiveEntry → List ArchiveEntry
or_insert p es = if contains_key p es then es else es ++ (synthesized p ∷ [])

abbrev pub add_all : List VfsPath → List ArchiveEntry → List ArchiveEntry
add_all [] es = es
add_all (p ∷ ps) es = add_all ps (or_insert p es)

module _ (paths : PathLib) where
  unfoldable pub parent_of : VfsPath → Option VfsPath
  parent_of path =
      Option.map (λ parent. if is_empty parent then root_path else parent) (paths.parent path)

  module _ (by_path : List ArchiveEntry) where
    -- The `while let` loop: what it pushes.
    unfoldable pub ancestors : ℕ → Option VfsPath → Option (List VfsPath)
    unfolding parent_of
    ancestors zero ancestor = none
    ancestors (suc fuel) none = some []
    ancestors (suc fuel) (some dir_path) =
        elim (str_eq dir_path root_path || contains_key dir_path by_path) [
          | true ↦ some []
          | false ↦ Option.map (dir_path ∷◌) (ancestors fuel (parent_of dir_path))
        ]

    unfoldable pub missing : ℕ → List ArchiveEntry → Option (List VfsPath)
    unfolding ancestors parent_of
    missing fuel [] = some []
    missing fuel (e ∷ es) =
        Option.bind (ancestors fuel (parent_of e.path))
          λ here. Option.map (here ++◌) (missing fuel es)

  module _ (order : List ArchiveEntry → List ArchiveEntry) (before : VfsPath → VfsPath → Bool) where
    unfoldable pub build_index : ℕ → List RawEntry → Option (List ArchiveEntry)
    unfolding missing insert_raws
    build_index fuel raw_entries =
        let by_path = insert_raws raw_entries [] in
        Option.map
          (λ to_add. sort_by (λ a b. before a.path b.path) (order (add_all to_add by_path)))
          (missing by_path fuel (order by_path))
