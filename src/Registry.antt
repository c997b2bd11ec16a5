-- ===== src/Registry.antt =====
-- crates/app/src/registry.rs: the backends that are open, by location. A `HashMap` behind its `Mutex` is a list
-- of pairs, the newest first; `SftpFs::connect` and what reads the members of an archive are arguments.
pub mod Cache
mod Tests
use pfnc.Prelude.{
  ℕ, Bool, true, false, Option, none, some, List, [], ◌∷◌, ◌++◌, Str, str_eq, codes, if◌then◌else◌,
}
use pfnc.Effect.{M, pure, fail, Result, ok, err, out_of_fuel, map_err, ◌>>=◌, ◌>>◌}
use pfnc.Vfs.{
  VfsPath, ProfileId, Location, local, remote, archive, same_location, VfsError, connection_lost,
  unsupported,
}
use pfnc.Vfs.Interface.{Vfs, PathLib}
use pfnc.Archive.Fs.{ArchiveFormat, detect_format}

pub record VfsRegistry (W : Type 0) : Type 0 where
  pub local_vfs : Vfs W
  pub remotes : List (ProfileId × Vfs W)
  pub archives : List (Location × Vfs W)

abbrev pub new_registry : {W : Type 0} → Vfs W → VfsRegistry W
new_registry local_vfs = record { local_vfs = local_vfs; remotes = []; archives = [] }

-- `HashMap::get` by the test `same`; what is inserted stands in front of what it replaces.
abbrev pub cached : {K V : Type 0} → (K → K → Bool) → List (K × V) → K → Option V
cached same [] k = none
cached same ((j, v) ∷ rest) k = let later = cached same rest k in if same j k then some v else later

-- `ok_or_else`.
abbrev pub ok_or : {E A : Type 0} → E → Option A → Result E A
ok_or e none = err e
ok_or e (some a) = ok a

abbrev pub not_connected : ProfileId → VfsError
not_connected profile_id = connection_lost (codes "no active connection for profile " ++ profile_id)

abbrev pub not_opened : VfsError
not_opened = connection_lost (codes "archive not yet opened")

unfoldable pub resolve : {W : Type 0} → VfsRegistry W → Location → Result VfsError (Vfs W)
resolve r local = ok r.local_vfs
resolve r (remote profile_id) =
    ok_or (not_connected profile_id) (cached str_eq r.remotes profile_id)
resolve r (archive base path) =
    ok_or not_opened (cached same_location r.archives (archive base path))

-- A result that is there already, as a call.
abbrev pub given : {W E A : Type 0} → Result E A → M W E A
given r w = (r, w)

-- `AuthMethod` and `ConnectionProfile` of crates/vfs-sftp; `auto` is what the Connect dialog makes.
pub data AuthMethod : Type 0 where
  agent : AuthMethod
  key_file : Str → Option Str → Option Str → AuthMethod
  password_only keyboard_interactive : Str → AuthMethod
  auto : Option Str → AuthMethod

pub record ConnectionProfile : Type 0 where
  pub id : ProfileId
  pub host : Str
  pub port : ℕ
  pub username : Str
  pub auth : AuthMethod

-- `connect` with the default file of known hosts, then the probe of the remote system.
unfoldable pub connect_and_cache :
    {W ConnectError : Type 0}
    → (ConnectionProfile → M W ConnectError (Vfs W))
    → (Vfs W → W → W)
    → ConnectionProfile
    → VfsRegistry W
    → M W ConnectError (VfsRegistry W)
connect_and_cache connect warm_remote_os_probe profile r = do
  sftp ← connect profile
  λ w. (ok (record r { remotes = (profile.id, sftp) ∷ r.remotes }), warm_remote_os_probe sftp w)

abbrev pub require_format : {W : Type 0} → Option ArchiveFormat → M W VfsError ArchiveFormat
require_format none = fail (unsupported (codes "not a recognized archive format"))
require_format (some format) = pure format

-- `open` is `ArchiveFs::open`.
unfoldable pub open_archive_and_cache :
    {W : Type 0}
    → PathLib
    → (Vfs W → VfsPath → ArchiveFormat → M W VfsError (Vfs W))
    → Location
    → VfsRegistry W
    → M W VfsError (VfsRegistry W)
unfolding resolve detect_format
open_archive_and_cache paths open_archive (archive base path) r = do
  format ← require_format (detect_format paths path)
  base_vfs ← given (resolve r base)
  archive_fs ← open_archive base_vfs path format
  pure (record r { archives = (archive base path, archive_fs) ∷ r.archives })
open_archive_and_cache paths open_archive _ r =
    fail (unsupported (codes "open_archive_and_cache called with a non-archive location"))
