-- ===== src/Vfs/Interface.antt =====
-- The traits `Vfs` (crates/core/src/vfs.rs), `Read` and `Write` as interfaces over the state `W` of
-- everything that a backend can read or change: the disk, the connection, and whatever else moves.
-- Two backends over one `W` may be the same one.
use pfnc.Prelude.{ℕ, Bool, Option, List, Str}
use pfnc.Effect.{M}
use pfnc.Vfs.{VfsPath, VfsError, EntryMeta, IoError, JobError, VfsCapabilities}

-- Bytes as numbers. `read n` returns at most `n` of them, and none at the end.
pub record Reader (W : Type 0) : Type 0 where
  pub read : ℕ → M W IoError (List ℕ)

-- `write` returns how many of the bytes it took.
pub record Writer (W : Type 0) : Type 0 where
  pub write : List ℕ → M W IoError ℕ
  pub flush : M W IoError (Unit {0})

-- `RemoteFileAgent` of crates/core/src/transport.rs.
pub record RemoteFileAgent (W : Type 0) : Type 0 where
  pub read_file : VfsPath → Writer W → M W JobError ℕ
  pub write_file : VfsPath → Option ℕ → Reader W → M W JobError (Unit {0})

pub record Vfs (W : Type 0) : Type 0 where
  pub list_dir : VfsPath → M W VfsError (List EntryMeta)
  pub stat : VfsPath → M W VfsError EntryMeta
  pub open_read : VfsPath → M W VfsError (Reader W)
  pub create_write : VfsPath → Option ℕ → M W VfsError (Writer W)
  pub mkdir : VfsPath → Option ℕ → M W VfsError (Unit {0})
  pub remove_file : VfsPath → M W VfsError (Unit {0})
  pub remove_dir : VfsPath → Bool → M W VfsError (Unit {0})
  pub rename : VfsPath → VfsPath → M W VfsError (Unit {0})
  pub set_permissions : VfsPath → ℕ → M W VfsError (Unit {0})
  pub symlink : VfsPath → VfsPath → M W VfsError (Unit {0})
  pub capabilities : VfsCapabilities
  pub root : VfsPath
  pub quick_hash : VfsPath → M W VfsError (Option ℕ)
  pub fast_transport : W → Option (RemoteFileAgent W) × W

-- The operations of `Utf8Path` that the program calls on a path, from the crate camino.
pub record PathLib : Type 0 where
  pub join : VfsPath → Str → VfsPath
  pub file_name : VfsPath → Option Str
  pub parent : VfsPath → Option VfsPath
