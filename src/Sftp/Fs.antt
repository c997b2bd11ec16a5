-- ===== src/Sftp/Fs.antt =====
-- crates/vfs-sftp/src/lib.rs: the operations of `SftpFs` on an open connection.
use pfnc.Prelude.{
  ℕ, zero, suc, ◌+◌, ◌*◌, ◌%◌, ◌^◌, Bool, true, false, Option, none, some, List, [], ◌∷◌, ◌++◌, Str,
  codes, leb, ◌==◌, if◌then◌else◌, sort_by,
}
use mathlib.Core.Option
use pfnc.Effect.{M, Result, ok, pure, exhausted, for_each, effect, map_err, ◌>>=◌, ◌>>◌}
use pfnc.Vfs.{
  VfsPath, VfsError, not_found, already_exists, io, kind_not_found, kind_already_exists, EntryKind,
  file, dir, other, symlink, EntryMeta, is_dir,
}
use pfnc.Vfs.Interface.{Vfs, PathLib, Writer, RemoteFileAgent}
use pfnc.Connect.{is_whitespace, trim_left}
use pfnc.Archive.Fs.{listed_before}
use pfnc.Sftp.{hash_command}
use pfnc.Sftp.Hex.{digit_value}
use pfnc.Sftp.Session.{SshError, FileType, type_dir, type_symlink, type_file, type_other, FileStat}
use pfnc.Sftp.Connect.{SftpFs}

unfoldable pub map_ssh_err : VfsPath → SshError → VfsError
map_ssh_err path e = elim e.as_io.error_kind [
  | kind_not_found ↦ not_found path
  | kind_already_exists ↦ already_exists path
  | _ ↦ io e.as_io
]

abbrev pub kind_of_type : FileType → EntryKind
kind_of_type type_dir = dir
kind_of_type type_symlink = symlink none
kind_of_type type_file = file
kind_of_type type_other = other

-- `epoch` is `UNIX_EPOCH`, in nanoseconds after the earliest time.
unfoldable pub entry_meta_from_stat : ℕ → VfsPath → Str → FileStat → EntryMeta
entry_meta_from_stat epoch path name stat = record {
  name = name;
  path = path;
  kind = kind_of_type stat.file_type;
  size = Option.get_or stat.size 0;
  modified = Option.map (λ t. epoch + t * 10 ^ 9) stat.mtime;
  permissions = Option.map (λ p. p % 4096) stat.perm;
  owner = none;
  group = none;
}

-- `u64::from_str_radix(s, 16).ok()`.
abbrev pub push_hex : ℕ → Option ℕ → Option ℕ
push_hex value none = none
push_hex value (some d) = let next = 16 * value + d in if leb (2 ^ 64) next then none else some next

unfoldable pub parse_hex_onto : ℕ → Str → Option ℕ
parse_hex_onto value [] = some value
parse_hex_onto value (c ∷ s) =
    Option.bind (push_hex value (digit_value c)) λ next. parse_hex_onto next s

abbrev pub parse_hex_digits : Str → Option ℕ
unfolding parse_hex_onto
parse_hex_digits [] = none
parse_hex_digits (c ∷ s) = parse_hex_onto 0 (c ∷ s)

unfoldable pub parse_hex : Str → Option ℕ
unfolding parse_hex_digits
parse_hex [] = none
parse_hex (c ∷ s) =
    let signed = parse_hex_digits s in
    let plain = parse_hex_digits (c ∷ s) in if c == 43 then signed else plain

-- `split_whitespace().next().unwrap_or("")`
abbrev pub until_space : Str → Str
until_space [] = []
until_space (c ∷ s) = let rest = until_space s in if is_whitespace c then [] else c ∷ rest

abbrev pub first_word : Str → Str
first_word s = until_space (trim_left s)

-- `OnceLock::set`, whose result is dropped.
abbrev pub set_once : {A : Type 0} → A → Option A → Option A
set_once a none = some a
set_once a (some b) = some b

abbrev pub is_link : EntryKind → Bool
is_link (symlink _) = true
is_link _ = false

abbrev pub ok_target : Result SshError (Option VfsPath) → Option VfsPath
ok_target (ok target) = target
ok_target _ = none

module _ {Tcp W : Type 0} (paths : PathLib) (name_before : Str → Str → Bool) (epoch : ℕ)
    (fs : SftpFs Tcp W) where
  -- `map_err(|e| map_ssh_err(e, path))`
  abbrev pub at_path : {A : Type 0} → VfsPath → M W SshError A → M W VfsError A
  at_path path m = map_err (map_ssh_err path) m

  -- The target of a symbolic link, when it can be read.
  unfoldable pub target_if : VfsPath → EntryMeta → Bool → M W VfsError EntryMeta
  target_if path meta true w =
      let (target, w') = fs.sftp.readlink path w in
      (ok (record meta { kind = symlink (ok_target target) }), w')
  target_if path meta false w = (ok meta, w)

  unfoldable pub with_target : VfsPath → EntryMeta → M W VfsError EntryMeta
  unfolding target_if
  with_target path meta = target_if path meta (is_link meta.kind)

  -- One entry of `readdir`; what is not UTF-8 is skipped.
  unfoldable pub push_entry :
      Option VfsPath × FileStat → List EntryMeta → M W VfsError (List EntryMeta)
  unfolding entry_meta_from_stat with_target
  push_entry (none, stat) out = pure out
  push_entry (some full, stat) out = do
    meta ←
        with_target full
          (entry_meta_from_stat epoch full (Option.get_or (paths.file_name full) []) stat)
    pure (out ++ (meta ∷ []))

  unfoldable pub list_dir : VfsPath → M W VfsError (List EntryMeta)
  unfolding push_entry for_each map_ssh_err
  list_dir path = do
    entries ← at_path path (fs.sftp.readdir path)
    out ← for_each push_entry entries []
    pure (sort_by (listed_before paths name_before) out)

  unfoldable pub stat : VfsPath → M W VfsError EntryMeta
  unfolding entry_meta_from_stat with_target map_ssh_err
  stat path = do
    stat ← at_path path (fs.sftp.lstat path)
    with_target path
        (entry_meta_from_stat epoch path (Option.get_or (paths.file_name path) (codes "/")) stat)

  -- 0o644
  abbrev pub create_write : VfsPath → Option ℕ → M W VfsError (Writer W)
  unfolding map_ssh_err
  create_write path mode = at_path path (fs.sftp.open_truncated path (Option.get_or mode 420))

  -- 0o755
  abbrev pub mkdir : VfsPath → Option ℕ → M W VfsError (Unit {0})
  unfolding map_ssh_err
  mkdir path mode = at_path path (fs.sftp.mkdir path (Option.get_or mode 493))

  unfoldable pub remove_file : VfsPath → M W VfsError (Unit {0})
  unfolding map_ssh_err
  remove_file path = at_path path (fs.sftp.unlink path)

  -- The fuel bounds the depth of the tree.
  unfoldable pub remove_dir : ℕ → VfsPath → Bool → M W VfsError (Unit {0})
  unfolding list_dir remove_file for_each map_ssh_err
  remove_dir fuel path false = at_path path (fs.sftp.rmdir path)
  remove_dir zero path true = exhausted
  remove_dir (suc fuel) path true = do
    entries ← list_dir path
    for_each
        (λ e _. elim (is_dir e.kind) [
          | true ↦ remove_dir fuel e.path true
          | false ↦ remove_file e.path
        ])
        entries tt
    at_path path (fs.sftp.rmdir path)

  unfoldable pub set_permissions : VfsPath → ℕ → M W VfsError (Unit {0})
  unfolding map_ssh_err
  set_permissions path mode = do
    stat ← at_path path (fs.sftp.stat path)
    at_path path (fs.sftp.setstat path (record stat { perm = some mode }))

  abbrev pub hash_in : Str → ℕ → Option ℕ
  unfolding parse_hex
  hash_in stdout zero = parse_hex (first_word stdout)
  hash_in stdout (suc _) = none

  unfoldable pub exec_quick_hash : VfsPath → M W VfsError (Option ℕ)
  unfolding hash_command map_ssh_err
  exec_quick_hash path = do
    channel ← at_path path fs.session.channel_session
    at_path path (channel.exec (hash_command path))
    stdout ← map_err io channel.read_to_string
    at_path path channel.wait_close
    status ← at_path path channel.exit_status
    pure (hash_in stdout status)

  abbrev pub set_xxhsum : Bool → W → W
  set_xxhsum found w =
      fs.place.set_caches
        (record (fs.place.caches w) {
          xxhsum_available = set_once found (fs.place.caches w).xxhsum_available;
        })
        w

  abbrev pub note_hash : Option ℕ → M W VfsError (Option ℕ)
  note_hash (some hash) = effect (set_xxhsum true) >> pure (some hash)
  note_hash none = effect (set_xxhsum false) >> pure none

  abbrev pub is_missing : Option Bool → Bool
  is_missing (some false) = true
  is_missing _ = false

  unfoldable pub quick_hash : VfsPath → M W VfsError (Option ℕ)
  unfolding exec_quick_hash
  quick_hash path w = elim (is_missing (fs.place.caches w).xxhsum_available) [
    | true ↦ (ok none, w)
    | false ↦ (exec_quick_hash path >>= note_hash) w
  ]

  -- `depth` is the fuel of `remove_dir`.
  unfoldable pub sftp_vfs : ℕ → (W → Option (RemoteFileAgent W) × W) → Vfs W
  unfolding list_dir stat remove_file remove_dir set_permissions quick_hash map_ssh_err
  sftp_vfs depth fast_transport = record {
    list_dir = list_dir;
    stat = stat;
    open_read = λ path. at_path path (fs.sftp.open_file path);
    create_write = create_write;
    mkdir = mkdir;
    remove_file = remove_file;
    remove_dir = remove_dir depth;
    rename = λ from to. at_path from (fs.sftp.rename from to);
    set_permissions = set_permissions;
    symlink = λ target link. at_path link (fs.sftp.symlink target link);
    capabilities = record {
      can_write = true;
      can_set_permissions = true;
      can_symlink = true;
      can_rename = true;
    };
    root = codes "/";
    quick_hash = quick_hash;
    fast_transport = fast_transport;
  }
