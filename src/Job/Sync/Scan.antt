-- ===== src/Job/Sync/Scan.antt =====
-- crates/core/src/job.rs, `build_sync_plan`: what the scan does not touch.
use pfnc.Prelude.{
  ℕ, zero, suc, ◌≡◌, ◌==◌, if◌then◌else◌, refl, Bool, true, false, Option, none, some, List, [],
  ◌∷◌,
}
use pfnc.Effect.{M, pure, total, effect}
use pfnc.Effect.Hoare.{
  Leaves, Any, Leaves-pure, Leaves-bind, Leaves-exhausted, Leaves-for_each, Leaves-map_err,
  Leaves-Any, Leaves-fail, Leaves-elim,
}
use pfnc.Vfs.{
  VfsPath, VfsError, EntryMeta, EntryKind, file, dir, other, symlink, is_dir, same_kind, vfs_error,
  cancelled,
}
use pfnc.Vfs.Interface.{Vfs, PathLib}
use pfnc.Job.{Env, JobProgress}
use pfnc.Job.Tasks.{check_cancelled}
use pfnc.Job.Walk.{DeleteItem, walk_for_delete}
use pfnc.Job.Sync.{
  SyncPlan, push_full_copy, file_needs_copy, compare_contents, diff_same, diff_entry, diff_found,
  diff_entries, diff_dir, push_copy, push_leftovers, same_shape, named, without, by_name,
  build_sync_plan, empty_plan, with_totals, sync_totals,
}

-- Looking into the backend keeps `P`.
pub record Looks {W : Type 0} (P : W → Type 0) (vfs : Vfs W) : Type 0 where
  pub looks_list : (p : VfsPath) (w : W) → P w → P (vfs.list_dir p w).1
  pub looks_stat : (p : VfsPath) (w : W) → P w → P (vfs.stat p w).1
  pub looks_hash : (p : VfsPath) (w : W) → P w → P (vfs.quick_hash p w).1

module _ {W : Type 0} {P : W → Type 0} (vfs : Vfs W) (looks : Looks P vfs) where
  walk-Leaves :
      (fuel : ℕ) (p : VfsPath) (out : List DeleteItem)
      → Leaves P Any (walk_for_delete vfs fuel p out)
  unfolding walk_for_delete
  walk-Leaves zero p out = Leaves-exhausted
  walk-Leaves (suc fuel) p out =
      Leaves-bind (Leaves-Any (vfs.stat p) (looks.looks_stat p)) λ meta _.
        Leaves-bind
          (Leaves-elim (is_dir meta.kind)
            (Leaves-bind (Leaves-Any (vfs.list_dir p) (looks.looks_list p))
              λ entries _. Leaves-for_each _ entries (λ e b _. walk-Leaves fuel e.path b) tt)
            (Leaves-pure tt))
          (λ _ _. Leaves-pure tt)

asked-Leaves :
    {W : Type 0} {P : W → Type 0} (env : Env W)
    → ((v : W) → P v → P (env.is_cancelled v).1)
    → Leaves P Any (check_cancelled env)
asked-Leaves env asks =
    Leaves-bind (Leaves-Any (total env.is_cancelled) asks)
      λ stop _. Leaves-elim stop (Leaves-fail {e = cancelled}) (Leaves-pure tt)

module _ {W : Type 0} {P : W → Type 0} {Q : SyncPlan → Type 0} (paths : PathLib) (src dst : Vfs W)
    (looks_src : Looks P src) (looks_dst : Looks P dst)
    (pushed : (p : VfsPath) (m : EntryMeta) (old : Option EntryMeta) (plan : SyncPlan)
      → Q plan
      → Q (push_copy p m old plan)) where
  push_full_copy-Leaves :
      (fuel : ℕ) (p : VfsPath) (m : EntryMeta) (old : Option EntryMeta) (plan : SyncPlan)
      → Q plan
      → Leaves P Q (push_full_copy paths src fuel p m old plan)
  unfolding push_full_copy
  push_full_copy-Leaves zero p m old plan q = Leaves-exhausted
  push_full_copy-Leaves (suc fuel) p m old plan q =
      Leaves-elim (is_dir m.kind)
        (Leaves-bind (Leaves-Any (src.list_dir m.path) (looks_src.looks_list m.path)) λ entries _.
          Leaves-for_each _ entries
            (λ e b. push_full_copy-Leaves fuel (paths.join p e.name) e none b)
            (pushed p m old plan q))
        (Leaves-pure (pushed p m old plan q))

  compare_contents-Leaves :
      (a b : EntryMeta) (same : Bool) → Leaves P Any (compare_contents src dst a b same)
  unfolding compare_contents
  compare_contents-Leaves a b false = Leaves-pure tt
  compare_contents-Leaves a b true =
      Leaves-bind (Leaves-Any (src.quick_hash a.path) (looks_src.looks_hash a.path)) λ _ _.
        Leaves-bind (Leaves-Any (dst.quick_hash b.path) (looks_dst.looks_hash b.path))
          λ _ _. Leaves-pure tt

  file_needs_copy-Leaves : (a b : EntryMeta) → Leaves P Any (file_needs_copy src dst a b)
  unfolding file_needs_copy
  file_needs_copy-Leaves a b = compare_contents-Leaves a b (a.size == b.size)

  chosen : (b : Bool) (x y : SyncPlan) → Q x → Q y → Q (if b then x else y)
  chosen true x y p q = p
  chosen false x y p q = q

  module _ (diff : VfsPath → VfsPath → SyncPlan → M W VfsError SyncPlan)
      (diffs : (p q : VfsPath) (plan : SyncPlan) → Q plan → Leaves P Q (diff p q plan)) where
    diff_same-Leaves :
        (a b : EntryMeta) (p : VfsPath) (plan : SyncPlan) (k : EntryKind)
        → Q plan
        → Leaves P Q (diff_same paths src dst diff a b p plan k)
    unfolding diff_same
    diff_same-Leaves a b p plan dir q = diffs a.path p plan q
    diff_same-Leaves a b p plan (symlink _) q =
        Leaves-pure (chosen (same_kind a.kind b.kind) _ _ q (pushed p a (some b) plan q))
    diff_same-Leaves a b p plan file q =
        Leaves-bind (file_needs_copy-Leaves a b)
          λ needs _. Leaves-pure (chosen needs _ _ (pushed p a none plan q) q)
    diff_same-Leaves a b p plan other q = Leaves-pure q

    diff_entry-Leaves :
        (fuel : ℕ) (a b : EntryMeta) (p : VfsPath) (plan : SyncPlan)
        → Q plan
        → Leaves P Q (diff_entry paths src dst fuel diff a b p plan)
    unfolding diff_entry
    diff_entry-Leaves fuel a b p plan q =
        Leaves-elim (same_shape a.kind b.kind) (diff_same-Leaves a b p plan a.kind q)
          (push_full_copy-Leaves fuel p a (some b) plan q)

    diff_found-Leaves :
        (fuel : ℕ) (a : EntryMeta) (p : VfsPath) (found : Option EntryMeta) (plan : SyncPlan)
        → Q plan
        → Leaves P Q (diff_found paths src dst fuel diff a p found plan)
    unfolding diff_found
    diff_found-Leaves fuel a p none plan q = push_full_copy-Leaves fuel p a none plan q
    diff_found-Leaves fuel a p (some b) plan q = diff_entry-Leaves fuel a b p plan q

    diff_entries-Leaves :
        (fuel : ℕ) (p : VfsPath) (es rest : List EntryMeta) (plan : SyncPlan)
        → Q plan
        → Leaves P (λ (plan', _). Q plan') (diff_entries paths src dst fuel diff p es rest plan)
    unfolding diff_entries
    diff_entries-Leaves fuel p [] rest plan q = Leaves-pure q
    diff_entries-Leaves fuel p (e ∷ es) rest plan q =
        Leaves-bind (diff_found-Leaves fuel e _ (named e.name rest) plan q)
          λ plan' q'. diff_entries-Leaves fuel p es (without e.name rest) plan' q'

  module _ (order : List EntryMeta → List EntryMeta) (delete_extraneous : Bool)
      (doomed : (plan : SyncPlan) (items : List DeleteItem)
        → delete_extraneous ≡ true
        → Q plan
        → Q (record plan { delete = items })) where
    swept-Leaves :
        (b : Bool) (fuel : ℕ) (rest : List EntryMeta) (plan : SyncPlan)
        → (b ≡ true → (items : List DeleteItem) → Q (record plan { delete = items }))
        → Q plan
        → Leaves P Q (if b then push_leftovers paths src dst fuel rest plan else pure plan)
    unfolding push_leftovers
    swept-Leaves true fuel rest plan swept q =
        Leaves-bind
          (Leaves-for_each _ rest (λ e out _. walk-Leaves dst looks_dst fuel e.path out) tt)
          λ items _. Leaves-pure (swept refl items)
    swept-Leaves false fuel rest plan swept q = Leaves-pure q

    diff_dir-Leaves :
        (fuel : ℕ) (p q : VfsPath) (plan : SyncPlan)
        → Q plan
        → Leaves P Q (diff_dir paths src dst order delete_extraneous fuel p q plan)
    unfolding diff_dir push_leftovers
    diff_dir-Leaves zero p q plan held = Leaves-exhausted
    diff_dir-Leaves (suc fuel) p q plan held =
        Leaves-bind (Leaves-Any (src.list_dir p) (looks_src.looks_list p)) λ here _.
          Leaves-bind (Leaves-Any (dst.list_dir q) (looks_dst.looks_list q)) λ there _.
            Leaves-bind
              (diff_entries-Leaves _ (diff_dir-Leaves fuel) fuel q here (by_name [] there) plan
                held)
              λ (plan', rest) held'.
                swept-Leaves delete_extraneous fuel (order rest) plan'
                  (λ yes items. doomed plan' items yes held') held'

    module _ {R : SyncPlan → Type 0} (env : Env W) (asks : (v : W) → P v → P (env.is_cancelled v).1)
        (sends : (p : JobProgress) (v : W) → P v → P (env.report p v))
        (totals : (plan : SyncPlan) → Q plan → R (with_totals plan)) where
      build-Leaves :
          (fuel : ℕ) (p q : VfsPath)
          → Q empty_plan
          → Leaves P R (build_sync_plan env paths order fuel src dst p q delete_extraneous)
      unfolding build_sync_plan
      build-Leaves fuel p q held = Leaves-bind (asked-Leaves env asks) λ _ _.
          Leaves-bind (Leaves-map_err vfs_error (diff_dir-Leaves fuel p q empty_plan held))
            λ plan held'.
              Leaves-bind
                (Leaves-Any (effect (env.report (sync_totals (with_totals plan)))) (sends _))
                λ _ _. Leaves-pure (totals plan held')

-- The scan changes nothing: what looking into the two backends keeps of the state (`P`), and asking the
-- token and sending progress keep too, `build_sync_plan` keeps, also when it fails.
pub build_sync_plan-Looks :
    {W : Type 0} (P : W → Type 0) (env : Env W) (paths : PathLib)
    (order : List EntryMeta → List EntryMeta) (fuel : ℕ) (src dst : Vfs W)
    (src_root dst_root : VfsPath) (delete_extraneous : Bool) (w : W)
    → Looks P src
    → Looks P dst
    → ((v : W) → P v → P (env.is_cancelled v).1)
    → ((p : JobProgress) (v : W) → P v → P (env.report p v))
    → P w
    → P (build_sync_plan env paths order fuel src dst src_root dst_root delete_extraneous w).1
unfolding build_sync_plan
build_sync_plan-Looks P env paths order fuel src dst src_root dst_root delete_extraneous w looks_src
      looks_dst asks sends h =
    (build-Leaves {Q = Any} paths src dst looks_src looks_dst (λ _ _ _ _ _. tt) order
        delete_extraneous (λ _ _ _ _. tt) {R = Any} env asks sends (λ _ _. tt) fuel src_root
        dst_root tt).kept
      w h
