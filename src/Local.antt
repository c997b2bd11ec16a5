-- ===== src/Local.antt =====
-- crates/vfs-local/src/lib.rs: `LocalFs`. The calls of std::fs are `StdFs`, over the state `W` of the disk; a path
-- of the system is its text.
pub mod Hash
mod Contents
mod Tests
use mathlib.Core.Option
use pfnc.Prelude.{
  ℕ, ◌%◌, Bool, true, false, Option, none, some, List, [], ◌∷◌, ◌++◌, Str, codes, sort_by,
}
use pfnc.Effect.{M, Result, ok, err, out_of_fuel, pure, exhausted, for_each, map_err, ◌>>=◌, ◌>>◌}
use pfnc.Vfs.{
  VfsPath, VfsError, not_found, permission_denied, already_exists, io, IoKind, kind_not_found,
  kind_permission_denied, kind_already_exists, IoError, VfsCapabilities, EntryKind, file, dir,
  other, symlink, EntryMeta,
}
use pfnc.Vfs.Interface.{Vfs, PathLib, Reader, Writer, RemoteFileAgent}
use pfnc.Archive.Fs.{listed_before}
use pfnc.Local.Hash.{Hasher, hash_loop}

-- `fs::Metadata`
pub record Metadata : Type 0 where
  pub is_symlink : Bool
  pub is_dir : Bool
  pub is_file : Bool
  pub len : ℕ
  pub modified : Option ℕ
  pub mode : ℕ

-- `fs::DirEntry`; a name that is not UTF-8 is `none`.
pub record DirEntry (W : Type 0) : Type 0 where
  pub file_name : Option Str
  pub metadata : M W IoError Metadata

pub record OpenOptions : Type 0 where
  pub write : Bool
  pub create : Bool
  pub truncate : Bool
  pub mode : Option ℕ

-- `read_dir` stands for the iterator too: what each of its steps gives. A target that is not UTF-8 is `none`.
pub record StdFs (W : Type 0) : Type 0 where
  pub read_dir : VfsPath → M W IoError (List (Result IoError (DirEntry W)))
  pub symlink_metadata : VfsPath → M W IoError Metadata
  pub read_link : VfsPath → M W IoError (Option VfsPath)
  pub open_file : VfsPath → M W IoError (Reader W)
  pub open_with : OpenOptions → VfsPath → M W IoError (Writer W)
  pub create_dir_all : VfsPath → M W IoError (Unit {0})
  pub set_permissions : VfsPath → ℕ → M W IoError (Unit {0})
  pub remove_file : VfsPath → M W IoError (Unit {0})
  pub remove_dir : VfsPath → M W IoError (Unit {0})
  pub remove_dir_all : VfsPath → M W IoError (Unit {0})
  pub rename : VfsPath → VfsPath → M W IoError (Unit {0})
  pub symlink : VfsPath → VfsPath → M W IoError (Unit {0})

unfoldable pub map_io_err : VfsPath → IoError → VfsError
map_io_err path e = elim e.error_kind [
  | kind_not_found ↦ not_found path
  | kind_permission_denied ↦ permission_denied path
  | kind_already_exists ↦ already_exists path
  | _ ↦ io e
]

abbrev pub joined_target : Result IoError (Option VfsPath) → Option VfsPath
joined_target (ok target) = target
joined_target _ = none

module _ {W : Type 0} (fs : StdFs W) where
  -- `map_err(|e| map_io_err(e, path))`
  abbrev pub at_path : {A : Type 0} → VfsPath → M W IoError A → M W VfsError A
  at_path path m = map_err (map_io_err path) m

  abbrev pub kind_at : VfsPath → Metadata → W → EntryKind × W
  kind_at path meta w = elim meta.is_symlink [
    | true ↦
        let (target, w') = fs.read_link path w in (EntryKind.symlink (joined_target target), w')
    | false ↦ elim meta.is_dir [
      | true ↦ (dir, w)
      | false ↦ elim meta.is_file [ true ↦ (file, w) | false ↦ (other, w) ]
    ]
  ]

  -- `mode & 0o7777`
  unfoldable pub entry_meta_from_std : VfsPath → Str → Metadata → M W VfsError EntryMeta
  entry_meta_from_std path name meta w =
      let (kind, w') = kind_at path meta w in
      (
        ok (record {
          name = name;
          path = path;
          kind = kind;
          size = meta.len;
          modified = meta.modified;
          permissions = some (meta.mode % 4096);
          owner = none;
          group = none;
        }),
        w',
      )

  module _ (paths : PathLib) (name_before : Str → Str → Bool) where
    -- An entry whose metadata cannot be read is skipped.
    abbrev pub with_metadata :
        VfsPath
        → Str
        → List EntryMeta
        → Result IoError Metadata × W
        → Result VfsError (List EntryMeta) × W
    unfolding entry_meta_from_std
    with_metadata full name out (ok meta, w) =
        (entry_meta_from_std full name meta >>= λ e. pure (out ++ (e ∷ []))) w
    with_metadata full name out (err _, w) = (ok out, w)
    with_metadata full name out (out_of_fuel, w) = (out_of_fuel, w)

    abbrev pub push_named :
        VfsPath → DirEntry W → Option Str → List EntryMeta → M W VfsError (List EntryMeta)
    push_named path entry none out w = (ok out, w)
    push_named path entry (some name) out w =
        with_metadata (paths.join path name) name out (entry.metadata w)

    -- One turn of the loop of `list_dir`.
    unfoldable pub push_entry :
        VfsPath → Result IoError (DirEntry W) → List EntryMeta → M W VfsError (List EntryMeta)
    unfolding entry_meta_from_std
    push_entry path (ok entry) out = push_named path entry entry.file_name out
    push_entry path (err _) out = pure out
    push_entry path out_of_fuel out = exhausted

    unfoldable pub list_dir : VfsPath → M W VfsError (List EntryMeta)
    unfolding map_io_err push_entry for_each
    list_dir path = do
      rd ← at_path path (fs.read_dir path)
      out ← for_each (push_entry path) rd []
      pure (sort_by (listed_before paths name_before) out)

    unfoldable pub stat : VfsPath → M W VfsError EntryMeta
    unfolding map_io_err entry_meta_from_std
    stat path = do
      meta ← at_path path (fs.symlink_metadata path)
      entry_meta_from_std path (Option.get_or (paths.file_name path) (codes "/")) meta

    abbrev pub options_for : Option ℕ → OpenOptions
    options_for mode = record { write = true; create = true; truncate = true; mode = mode }

    abbrev pub permit : VfsPath → Option ℕ → M W VfsError (Unit {0})
    permit path none = pure tt
    permit path (some m) = at_path path (fs.set_permissions path m)

    unfoldable pub mkdir : VfsPath → Option ℕ → M W VfsError (Unit {0})
    unfolding map_io_err
    mkdir path mode = at_path path (fs.create_dir_all path) >> permit path mode

    unfoldable pub remove_dir : VfsPath → Bool → M W VfsError (Unit {0})
    unfolding map_io_err
    remove_dir path true = at_path path (fs.remove_dir_all path)
    remove_dir path false = at_path path (fs.remove_dir path)

    module _ {H : Type 0} (xxh64 : Hasher H) where
      -- `turns` bounds the reads of one file.
      unfoldable pub quick_hash : ℕ → VfsPath → M W VfsError (Option ℕ)
      unfolding map_io_err hash_loop
      quick_hash turns path = do
        opened ← at_path path (fs.open_file path)
        h ← at_path path (hash_loop xxh64 opened turns (xxh64.new 0))
        pure (some (xxh64.digest h))

      unfoldable pub local_vfs : ℕ → Vfs W
      unfolding map_io_err list_dir stat mkdir remove_dir quick_hash
      local_vfs turns = record {
        list_dir = list_dir;
        stat = stat;
        open_read = λ path. at_path path (fs.open_file path);
        create_write = λ path mode. at_path path (fs.open_with (options_for mode) path);
        mkdir = mkdir;
        remove_file = λ path. at_path path (fs.remove_file path);
        remove_dir = remove_dir;
        rename = λ from to. at_path from (fs.rename from to);
        set_permissions = λ path mode. at_path path (fs.set_permissions path mode);
        symlink = λ target link. at_path link (fs.symlink target link);
        capabilities = record {
          can_write = true;
          can_set_permissions = true;
          can_symlink = true;
          can_rename = true;
        };
        root = codes "/";
        quick_hash = quick_hash turns;
        fast_transport = λ w. (none, w);
      }
