-- ===== src/Vfs.antt =====
-- crates/core/src/vfs.rs: locations, entries and errors. The child `Interface` has the `Vfs` trait.
pub mod Interface
use pfnc.Prelude.{ℕ, Bool, true, false, Option, none, some, Str, str_eq, ◌&&◌}

-- `Utf8PathBuf`, by its text.
abbrev pub VfsPath : Type 0
VfsPath = Str

abbrev pub ProfileId : Type 0
ProfileId = Str

pub data Location : Type 0 where
  local : Location
  remote : ProfileId → Location
  archive : Location → VfsPath → Location

-- The derived `==`.
unfoldable pub same_location : Location → Location → Bool
same_location local local = true
same_location (remote p) (remote q) = str_eq p q
same_location (archive b p) (archive c q) = same_location b c && str_eq p q
same_location _ _ = false

pub data EntryKind : Type 0 where
  file dir other : EntryKind
  symlink : Option VfsPath → EntryKind

abbrev pub is_dir : EntryKind → Bool
is_dir dir = true
is_dir _ = false

-- The derived `==` of `Option<VfsPath>` and of `EntryKind`.
abbrev pub same_target : Option VfsPath → Option VfsPath → Bool
same_target none none = true
same_target (some p) (some q) = str_eq p q
same_target _ _ = false

abbrev pub same_kind : EntryKind → EntryKind → Bool
same_kind file file = true
same_kind dir dir = true
same_kind other other = true
same_kind (symlink s) (symlink t) = same_target s t
same_kind _ _ = false

-- A time is its number of nanoseconds after the earliest time that the platform represents.
pub record EntryMeta : Type 0 where
  pub name : Str
  pub path : VfsPath
  pub kind : EntryKind
  pub size : ℕ
  pub modified : Option ℕ
  pub permissions : Option ℕ
  pub owner : Option Str
  pub group : Option Str

-- `io` stands for `std::io::Error`, by its `ErrorKind` and message.
pub data IoKind : Type 0 where
  kind_not_found kind_permission_denied kind_already_exists kind_interrupted kind_write_zero
        kind_other :
      IoKind

pub record IoError : Type 0 where
  pub error_kind : IoKind
  pub message : Str

pub data VfsError : Type 0 where
  not_found permission_denied already_exists : VfsPath → VfsError
  connection_lost : Str → VfsError
  unsupported : Str → VfsError
  io : IoError → VfsError

-- `JobError` of crates/core/src/job.rs: the errors of jobs, transports and agents.
pub data JobError : Type 0 where
  cancelled : JobError
  vfs_error : VfsError → JobError

pub record VfsCapabilities : Type 0 where
  pub can_write : Bool
  pub can_set_permissions : Bool
  pub can_symlink : Bool
  pub can_rename : Bool
