-- ===== src/Archive/Fs.antt =====
-- crates/vfs-archive/src/lib.rs, `ArchiveFs`, and the extraction of tar_backend.rs and zip_backend.rs. What
-- the crates tar, zip and zstd read from the file is the list `members`.
pub mod Listing
pub mod Order
use mathlib.Core.Option
use pfnc.Prelude.{
  ℕ, Bool, true, false, not, ◌||◌, ◌&&◌, Option, none, some, List, [], ◌∷◌, Str, str_eq, codes,
  filter, map, is_empty, if◌then◌else◌, sort_by, ends_with, ltb, ◌+◌,
}
use pfnc.Effect.{M, pure, fail, Result, ok, err, out_of_fuel}
use pfnc.Vfs.{
  VfsPath, VfsError, not_found, unsupported, VfsCapabilities, EntryKind, file, dir, symlink,
  EntryMeta, is_dir,
}
use pfnc.Vfs.Interface.{Vfs, PathLib, Reader, Writer}
use pfnc.Archive.{RawEntry, ArchiveEntry, sanitize_path, root_path}

pub data ArchiveFormat : Type 0 where
  tar tar_zst zip : ArchiveFormat

-- `to_ascii_lowercase`.
abbrev lower : ℕ → ℕ
lower c = if ltb 64 c && ltb c 91 then c + 32 else c

abbrev pub format_of_name : Str → Option ArchiveFormat
format_of_name name =
    if ends_with (codes ".tar.zst") name || ends_with (codes ".tzst") name
    then some tar_zst
    else if ends_with (codes ".tar") name
    then some tar
    else if ends_with (codes ".zip") name
    then some zip
    else none

unfoldable pub detect_format : PathLib → VfsPath → Option ArchiveFormat
detect_format paths path =
    Option.bind (paths.file_name path) λ name. format_of_name (map lower name)

pub record Member : Type 0 where
  pub raw : RawEntry
  pub bytes : List ℕ

pub record ArchiveFs : Type 0 where
  pub format : ArchiveFormat
  pub members : List Member
  pub entries : List ArchiveEntry

abbrev pub is_at : VfsPath → Option VfsPath → Bool
is_at target none = false
is_at target (some p) = str_eq p target

-- `extract_from`: the first member at the path that is no directory.
unfoldable pub extract_from : List Member → VfsPath → Result VfsError (List ℕ)
unfolding sanitize_path
extract_from [] target = err (not_found target)
extract_from (m ∷ ms) target =
    let rest = extract_from ms target in
    if m.raw.is_dir
    then rest
    else if is_at target (sanitize_path m.raw.raw_path)
    then ok m.bytes
    else rest

abbrev pub find_in : List ArchiveEntry → VfsPath → Result VfsError ArchiveEntry
find_in [] path = err (not_found path)
find_in (e ∷ es) path = let rest = find_in es path in if str_eq e.path path then ok e else rest

unfoldable pub find : ArchiveFs → VfsPath → Result VfsError ArchiveEntry
find fs path = find_in fs.entries path

module _ (paths : PathLib) where
  abbrev pub as_meta : ArchiveEntry → EntryMeta
  as_meta e = record {
    name = Option.get_or (paths.file_name e.path) [];
    path = e.path;
    kind = e.kind;
    size = e.size;
    modified = e.modified;
    permissions = e.permissions;
    owner = none;
    group = none;
  }

  -- The test of the filter of `list_dir`.
  abbrev pub has_parent : VfsPath → ArchiveEntry → Bool
  has_parent path e = elim (paths.parent e.path) [
    | none ↦ false
    | some parent ↦ str_eq (if is_empty parent then root_path else parent) path
  ]

  -- Directories first, by name in each group; `name_before` is the order of `str`.
  abbrev pub listed_before : (Str → Str → Bool) → EntryMeta → EntryMeta → Bool
  listed_before name_before a b =
      if is_dir a.kind
      then (if is_dir b.kind then name_before a.name b.name else true)
      else (if is_dir b.kind then false else name_before a.name b.name)

  abbrev pub listing : (Str → Str → Bool) → ArchiveFs → VfsPath → List EntryMeta
  listing name_before fs path =
      sort_by (listed_before name_before) (map as_meta (filter (has_parent path) fs.entries))

  unfoldable pub list_dir :
      (Str → Str → Bool) → ArchiveFs → VfsPath → Result VfsError (List EntryMeta)
  unfolding find
  list_dir name_before fs path =
      if str_eq path root_path then ok (listing name_before fs path) else elim (find fs path) [
        | ok _ ↦ ok (listing name_before fs path)
        | err e ↦ err e
        | out_of_fuel ↦ out_of_fuel
      ]

  abbrev pub root_meta : VfsPath → EntryMeta
  root_meta path = record {
    name = root_path;
    path = path;
    kind = dir;
    size = 0;
    modified = none;
    permissions = none;
    owner = none;
    group = none;
  }

  unfoldable pub stat : ArchiveFs → VfsPath → Result VfsError EntryMeta
  unfolding find
  stat fs path =
      if str_eq path root_path
      then ok (root_meta path)
      else elim (find fs path) [ ok e ↦ ok (as_meta e) | err e ↦ err e | out_of_fuel ↦ out_of_fuel ]

abbrev read_only : VfsError
read_only = unsupported (codes "archives are read-only")

-- The backend over a state `W`; `reader_of` makes the stream over what was extracted to a temporary file.
unfoldable pub archive_vfs :
    {W : Type 0} → PathLib → (Str → Str → Bool) → (List ℕ → Reader W) → ArchiveFs → Vfs W
unfolding list_dir stat extract_from
archive_vfs paths name_before reader_of fs = record {
  list_dir = λ p w. (list_dir paths name_before fs p, w);
  stat = λ p w. (stat paths fs p, w);
  open_read = λ p w. elim (extract_from fs.members p) [
    | ok bytes ↦ (ok (reader_of bytes), w)
    | err e ↦ (err e, w)
    | out_of_fuel ↦ (out_of_fuel, w)
  ];
  create_write = λ _ _. fail read_only;
  mkdir = λ _ _. fail read_only;
  remove_file = λ _. fail read_only;
  remove_dir = λ _ _. fail read_only;
  rename = λ _ _. fail read_only;
  set_permissions = λ _ _. fail read_only;
  symlink = λ _ _. fail read_only;
  capabilities = record {
    can_write = false;
    can_set_permissions = false;
    can_symlink = false;
    can_rename = false;
  };
  root = root_path;
  quick_hash = λ _. pure none;
  fast_transport = λ w. (none, w);
}
