-- ===== src/Registry/Tests.antt =====
-- crates/app/src/registry.rs with an archive on the local disk.
use pfnc.Prelude.{◌≡◌, refl, true, [], ◌∷◌, codes}
use pfnc.Effect.{M, ok, err, pure}
use pfnc.Vfs.{local, remote, archive, VfsPath, VfsError}
use pfnc.Vfs.Interface.{Vfs}
use pfnc.Archive.Fs.{ArchiveFormat}
use pfnc.Fixtures.{World, test_vfs, test_paths, fresh_world}
use pfnc.Registry.{
  VfsRegistry, resolve, new_registry, open_archive_and_cache, not_connected, not_opened,
}
use pfnc.Registry.Cache.{Opened, open_archive_and_cache_lem}

abbrev start : VfsRegistry World
start = new_registry test_vfs

-- The backend of the archive is the one below it.
abbrev opens : Vfs World → VfsPath → ArchiveFormat → M World VfsError (Vfs World)
opens vfs path format = pure vfs

abbrev zip_path : VfsPath
zip_path = codes "a.zip"

abbrev with_zip : VfsRegistry World
with_zip = record start { archives = (archive local zip_path, test_vfs) ∷ [] }

test_not_opened : resolve start (archive local zip_path) ≡ err not_opened
unfolding resolve
test_not_opened = refl

test_not_connected : resolve with_zip (remote (codes "h")) ≡ err (not_connected (codes "h"))
unfolding resolve
test_not_connected = refl

opened_zip :
    (open_archive_and_cache test_paths opens (archive local zip_path) start (fresh_world [] true)).0
    ≡ ok with_zip
unfolding open_archive_and_cache mathlib.Core.Option.bind
opened_zip = refl

open_archive_and_cache_lem_example :
    Opened test_paths opens local zip_path start with_zip (fresh_world [] true)
open_archive_and_cache_lem_example =
    open_archive_and_cache_lem test_paths opens local zip_path start with_zip (fresh_world [] true)
      opened_zip
