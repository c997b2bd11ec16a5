-- ===== src/Archive.antt =====
-- crates/vfs-archive: the index of an archive, and the read-only backend over it.
pub mod Clean
pub mod Index
pub mod Fs
mod Tests
use mathlib.Core.Option
use pfnc.Prelude.{
  ℕ, zero, suc, Bool, true, false, not, ◌||◌, ◌&&◌, Option, none, some, List, [], ◌∷◌, ◌++◌, Str,
  str_eq, codes, filter, map, split, join_with, trim_end, is_empty, if◌then◌else◌, sort_by,
}
use pfnc.Vfs.{VfsPath, EntryKind, file, dir, symlink, EntryMeta}
use pfnc.Vfs.Interface.{PathLib}

pub record RawEntry : Type 0 where
  pub raw_path : Str
  pub is_dir : Bool
  pub is_symlink : Bool
  pub symlink_target : Option Str
  pub size : ℕ
  pub modified : Option ℕ
  pub permissions : Option ℕ

pub record ArchiveEntry : Type 0 where
  pub path : VfsPath
  pub kind : EntryKind
  pub size : ℕ
  pub modified : Option ℕ
  pub permissions : Option ℕ

abbrev pub slash : ℕ
slash = b'/'

abbrev pub root_path : VfsPath
root_path = slash ∷ []

-- The components that the loop of `sanitize_path` skips, and the one at which it gives up.
abbrev pub is_skipped : Str → Bool
is_skipped c = is_empty c || str_eq c (codes ".")

abbrev pub is_up : Str → Bool
is_up c = str_eq c (codes "..")

unfoldable pub clean_components : List Str → Option (List Str)
clean_components [] = some []
clean_components (c ∷ cs) =
    let rest = clean_components cs in
    if is_skipped c then rest else if is_up c then none else Option.map (c ∷◌) rest

-- `format!("/{}", clean_components.join("/"))`, when there are any.
abbrev pub rooted : List Str → VfsPath
rooted cs = slash ∷ join_with root_path cs

abbrev pub as_path : List Str → Option VfsPath
as_path [] = none
as_path (c ∷ cs) = some (rooted (c ∷ cs))

unfoldable pub sanitize_path : Str → Option VfsPath
unfolding clean_components
sanitize_path raw =
    let trimmed = trim_end slash raw in
    if is_empty trimmed then none else Option.bind (clean_components (split slash trimmed)) as_path

abbrev pub sanitize_symlink_target : Str → Option VfsPath
unfolding sanitize_path
sanitize_symlink_target = sanitize_path
