-- ===== src/App/Opens.antt =====
-- crates/app/src/actions.rs and registry.rs: the backends that the threads of the jobs open.
use pfnc.Prelude.{
  ◌≡◌, refl, sym, ◌∙◌, ap, subst, inl, inr, ◌∷◌, Str, str_eq, ℕ, ◌<◌, ◌≢◌, length, List, Bool-cases,
}
use pfnc.Prelude.Words.{isize_bound}
use pfnc.Effect.{
  Result, ok, err, out_of_fuel, ok-injective, ok_of_then_run, map_err_run, ok_of_map_err_run,
}
use pfnc.Vfs.{
  VfsPath, VfsError, JobError, Location, local, remote, archive, same_location, EntryMeta,
  vfs_error, connection_lost,
}
use pfnc.Vfs.Interface.{Vfs}
use pfnc.Archive.Fs.{ArchiveFormat}
use pfnc.Job.{no_progress}
use pfnc.Job.Sync.{SyncPlan}
use pfnc.Registry.{
  VfsRegistry, resolve, connect_and_cache, open_archive_and_cache, ConnectionProfile,
}
use pfnc.Registry.Cache.{open_archive_and_cache_lem, same_location_iff}
use pfnc.App.{Task}
use pfnc.App.Tasks.{Shared, Threads, run_task, store_registry, store_plan, warm}
use pfnc.App.Panels.{AreShort}

-- A backend that lists no more entries than a `Vec` holds.
abbrev pub ListsShort : {W : Type 0} → Vfs W → Type 0
ListsShort {W} vfs =
    (p : VfsPath) (w : W) (es : List EntryMeta)
    → (vfs.list_dir p w).0 ≡ ok es
    → length es < isize_bound

-- What the threads open lists no more than a `Vec` holds.
pub record OpensShort {W ConnectError : Type 0} (threads : Threads W ConnectError) : Type 0 where
  pub profiles :
      (profile : ConnectionProfile) (w : W) (vfs : Vfs W)
      → (threads.connect profile w).0 ≡ ok vfs
      → ListsShort vfs
  pub archives :
      (base : Vfs W) (path : VfsPath) (format : ArchiveFormat) (w : W) (vfs : Vfs W)
      → (threads.open_archive base path format w).0 ≡ ok vfs
      → ListsShort vfs

module _ {W : Type 0} where
  stored-AreShort :
      (o : Result JobError (VfsRegistry W) × W) (s : Shared W)
      → AreShort s.registry
      → ((r : VfsRegistry W) → o.0 ≡ ok r → AreShort r)
      → AreShort (store_registry o s).1.registry
  stored-AreShort (ok r, w) s short new = new r refl
  stored-AreShort (err e, w) s short new = short
  stored-AreShort (out_of_fuel, w) s short new = short

  planned-AreShort :
      (cell : ℕ) (o : Result JobError SyncPlan × W) (s : Shared W)
      → AreShort s.registry
      → AreShort (store_plan cell o s).1.registry
  planned-AreShort cell (ok plan, w) s short = short
  planned-AreShort cell (err e, w) s short = short
  planned-AreShort cell (out_of_fuel, w) s short = short

  warm-AreShort :
      (r : Result VfsError (Vfs W)) (s : Shared W)
      → AreShort s.registry
      → AreShort (warm r s).1.registry
  warm-AreShort (ok vfs) s short = short
  warm-AreShort (err e) s short = short
  warm-AreShort out_of_fuel s short = short

  -- One remote host more.
  with_remote-AreShort :
      (r : VfsRegistry W) (id : Str) (fs : Vfs W)
      → ListsShort fs
      → AreShort r
      → AreShort (record r { remotes = (id, fs) ∷ r.remotes })
  unfolding resolve
  with_remote-AreShort r id fs lists short local = short local
  with_remote-AreShort r id fs lists short (archive base path) = short (archive base path)
  with_remote-AreShort r id fs lists short (remote other) = λ vfs found.
      elim (Bool-cases (str_eq id other)) [
        | inl same ↦ subst ListsShort (ok-injective (rw same at found)) lists
        | inr differ ↦ short (remote other) vfs (rw differ at found)
      ]

  opened-AreShort :
      (r r' : VfsRegistry W) (base : Location) (path : VfsPath) (fs : Vfs W)
      → ListsShort fs
      → resolve r' (archive base path) ≡ ok fs
      → ((other : Location) → other ≢ archive base path → resolve r' other ≡ resolve r other)
      → AreShort r
      → AreShort r'
  opened-AreShort r r' base path fs lists found others short l = λ vfs at.
      elim (Bool-cases (same_location l (archive base path))) [
        | inl same ↦
            let here = (same_location_iff l (archive base path)).0 same in
            subst ListsShort (ok-injective (sym found ∙ subst (λ m. resolve r' m ≡ ok vfs) here at))
              lists
        | inr differ ↦ short l vfs (
            sym (others l (λ here. cc (differ, (same_location_iff l (archive base path)).1 here)))
            ∙ at)
      ]

  module _ {ConnectError : Type 0} (threads : Threads W ConnectError)
      (opens : OpensShort threads) where
    connected-AreShort :
        (profile : ConnectionProfile) (r r' : VfsRegistry W) (w : W)
        → AreShort r
        → (connect_and_cache threads.connect threads.warm_remote_os_probe profile r w).0 ≡ ok r'
        → AreShort r'
    unfolding connect_and_cache
    connected-AreShort profile r r' w short done =
        let (fs, made, rest) = ok_of_then_run (threads.connect profile w) _ done in
        subst AreShort (ok-injective (sym (ap (λ o. o.0) rest) ∙ done))
          (with_remote-AreShort r profile.id fs (opens.profiles profile w fs made) short)

    archive-AreShort :
        (l : Location) (r r' : VfsRegistry W) (w : W)
        → AreShort r
        → (open_archive_and_cache threads.paths threads.open_archive l r w).0 ≡ ok r'
        → AreShort r'
    unfolding open_archive_and_cache
    archive-AreShort local r r' w short done = cc
    archive-AreShort (remote _) r r' w short done = cc
    archive-AreShort (archive base path) r r' w short done =
        let o =
          open_archive_and_cache_lem threads.paths threads.open_archive base path r r' w done in
        opened-AreShort r r' base path o.opened
          (opens.archives o.base_vfs path o.format w o.opened o.made) o.found o.others short

    -- The closure of a job leaves a registry of such backends.
    pub run_task-AreShort :
        (task : Task W) (s : Shared W)
        → AreShort s.registry
        → AreShort (run_task threads task s).1.registry
    unfolding run_task
    run_task-AreShort (Task.opens_archive l) s short =
        let w = threads.env.report no_progress s.world in
        let o = open_archive_and_cache threads.paths threads.open_archive l s.registry w in
        stored-AreShort (map_err_run vfs_error o) s short
          (λ r done. archive-AreShort l s.registry r w short (ok_of_map_err_run vfs_error o done))
    run_task-AreShort (Task.connects profile) s short =
        let w = threads.env.report no_progress s.world in
        let o =
          connect_and_cache threads.connect threads.warm_remote_os_probe profile s.registry w in
        let lost =
          λ (e : ConnectError). vfs_error (connection_lost (threads.show_connect_error e)) in
        stored-AreShort (map_err_run lost o) s short (λ r done.
          connected-AreShort profile s.registry r w short (ok_of_map_err_run lost o done))
    run_task-AreShort (Task.scans src dst src_root dst_root delete_extraneous cell) s short =
        planned-AreShort cell _ s short
    run_task-AreShort (Task.warms l) s short = warm-AreShort (resolve s.registry l) s short
    run_task-AreShort (Task.deletes _ _) s short = short
    run_task-AreShort (Task.syncs _ _ _ _) s short = short
    run_task-AreShort (Task.copies _ _ _ _ _ _ _) s short = short
    run_task-AreShort (Task.moves_across _ _ _ _ _ _ _) s short = short
    run_task-AreShort (Task.moves _ _) s short = short
