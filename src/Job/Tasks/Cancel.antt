-- ===== src/Job/Tasks/Cancel.antt =====
-- crates/core/src/job.rs: jobs that start with the token set.
use pfnc.Prelude.{ℕ, zero, suc, ◌≡◌, Bool, true, false, Option, none, some, List, [], ◌∷◌, ◌++◌}
use pfnc.Effect.{M, fail, pure, effect, for_each}
use pfnc.Effect.Hoare.{
  Any, Leaves, Leaves-pure, Leaves-fail, Leaves-exhausted, Leaves-bind, Leaves-for_each,
  Leaves-elim, Leaves-map_err, Leaves-Any, Leaves-total,
}
use pfnc.Vfs.{VfsPath, JobError, Location, local, remote, archive, cancelled, vfs_error, is_dir}
use pfnc.Vfs.Interface.{Vfs, PathLib, RemoteFileAgent}
use pfnc.Job.{JobProgress, Env}
use pfnc.Job.Walk.{CopyItem, DeleteItem, walk_for_copy, walk_for_delete}
use pfnc.Job.Tasks.{
  check_cancelled, start, plan_item, plan_copy, plan_delete, copy_one, delete_one, move_one,
  copy_job, delete_job, move_cross_backend, move_job,
}
use pfnc.Transport.{Transport, negotiate_transport, negotiate_enabled, or_stream}
use pfnc.Transport.Quic.{StaysCancelled}

abbrev NonEmpty : {A : Type 0} → List A → Type 0
NonEmpty [] = ⊥
NonEmpty (_ ∷ _) = Unit {0}

append-NonEmpty : {A : Type 0} (xs : List A) (x : A) → NonEmpty (xs ++ (x ∷ []))
append-NonEmpty [] x = tt
append-NonEmpty (y ∷ ys) x = tt

-- Planning on the backend, and asking it for its fast path, keep `P`.
pub record IsPlanned {W : Type 0} (P : W → Type 0) (vfs : Vfs W) : Type 0 where
  pub stats : (p : VfsPath) (w : W) → P w → P (vfs.stat p w).1
  pub lists : (p : VfsPath) (w : W) → P w → P (vfs.list_dir p w).1
  pub connects : (w : W) → P w → P (vfs.fast_transport w).1

module _ {W : Type 0} (P : W → Type 0) where
  walk_for_copy-NonEmpty :
      (paths : PathLib) (src : Vfs W)
      → IsPlanned P src
      → (fuel : ℕ) (from to : VfsPath) (out : List CopyItem)
      → Leaves P NonEmpty (walk_for_copy paths src fuel from to out)
  unfolding walk_for_copy
  walk_for_copy-NonEmpty paths src planned zero from to out = Leaves-exhausted
  walk_for_copy-NonEmpty paths src planned (suc fuel) from to out =
      Leaves-bind (Leaves-Any (src.stat from) (planned.stats from)) λ meta _.
        Leaves-elim (is_dir meta.kind)
          (Leaves-bind (Leaves-Any (src.list_dir from) (planned.lists from)) λ entries _.
            Leaves-for_each _ entries
              (λ e b _.
                walk_for_copy-NonEmpty paths src planned fuel e.path (paths.join to e.name) b)
              (append-NonEmpty out _))
          (Leaves-pure (append-NonEmpty out _))

  walk_for_delete-NonEmpty :
      (vfs : Vfs W)
      → IsPlanned P vfs
      → (fuel : ℕ) (path : VfsPath) (out : List DeleteItem)
      → Leaves P NonEmpty (walk_for_delete vfs fuel path out)
  unfolding walk_for_delete
  walk_for_delete-NonEmpty vfs planned zero path out = Leaves-exhausted
  walk_for_delete-NonEmpty vfs planned (suc fuel) path out =
      Leaves-bind (Leaves-Any (vfs.stat path) (planned.stats path)) λ meta _.
        Leaves-bind
          (Leaves-elim (is_dir meta.kind)
            (Leaves-bind (Leaves-Any (vfs.list_dir path) (planned.lists path)) λ entries _.
              Leaves-for_each {Q = Any} _ entries
                (λ e b _.
                  Leaves-Any (walk_for_delete vfs fuel e.path b)
                    (walk_for_delete-NonEmpty vfs planned fuel e.path b).kept)
                tt)
            (Leaves-pure tt))
          λ out' _. Leaves-pure (append-NonEmpty out' _)

  -- A plan that begins with some items is not empty.
  planned-NonEmpty :
      {A B : Type 0} (body : A → List B → M W JobError (List B)) (x : A) (xs : List A)
      → ((y : A) (out : List B) → Leaves P NonEmpty (body y out))
      → Leaves P NonEmpty (for_each body (x ∷ xs) [])
  unfolding for_each
  planned-NonEmpty body x xs turn =
      Leaves-bind (turn x []) λ out some_out. Leaves-for_each body xs (λ y b _. turn y b) some_out

  module _ (env : Env W) (c : StaysCancelled env P)
      (stores : (p : JobProgress) (w : W) → P w → P (env.store p w))
      (reports : (p : JobProgress) (w : W) → P w → P (env.report p w)) where
    halt :
        (b : Bool)
        → b ≡ true
        → Leaves P
            (λ (u : Unit {0}). ⊥)
            (elim b as (λ _. M W JobError (Unit {0})) [ true ↦ fail cancelled | false ↦ pure tt ])
    halt true set = Leaves-fail
    halt false set = cc

    check-Refused : Leaves P (λ _. ⊥) (check_cancelled env)
    check-Refused = Leaves-bind (Leaves-total (λ b. b ≡ true) env.is_cancelled c.stays c.set) halt

    start-kept : (p : JobProgress) → Leaves {E = JobError} P Any (effect (start env p))
    start-kept p = Leaves-Any (effect (start env p)) (λ w h. reports _ _ (stores p w h))

    -- A loop whose turns begin with the check, on something to do.
    loop-Refused :
        {A : Type 0} (body : A → Unit {0} → M W JobError (Unit {0})) (xs : List A)
        → ((x : A) → Leaves P (λ _. ⊥) (body x tt))
        → NonEmpty xs
        → Leaves P (λ _. ⊥) (for_each body xs tt)
    unfolding for_each
    loop-Refused body [] turn some_xs = absurd some_xs
    loop-Refused body (x ∷ xs) turn some_xs = Leaves-bind (turn x) λ _ never. absurd never

    copy_one-Refused :
        (src dst : Vfs W) (transport : Transport W) (i : CopyItem)
        → Leaves P (λ _. ⊥) (copy_one env src dst transport i tt)
    unfolding copy_one
    copy_one-Refused src dst transport i = Leaves-bind check-Refused λ _ never. absurd never

    delete_one-Refused :
        (vfs : Vfs W) (i : DeleteItem) → Leaves P (λ _. ⊥) (delete_one env vfs i tt)
    unfolding delete_one
    delete_one-Refused vfs i = Leaves-bind check-Refused λ _ never. absurd never

    move_one-Refused :
        (vfs : Vfs W) (i : VfsPath × VfsPath) → Leaves P (λ _. ⊥) (move_one env vfs i tt)
    unfolding move_one
    move_one-Refused vfs (from, to) = Leaves-bind check-Refused λ _ never. absurd never

    module _ (paths : PathLib) (fuel retries rounds : ℕ) where
      -- An item without a name ends the planning.
      by_name :
          (o : Option VfsPath) (e : JobError) (f : VfsPath → M W JobError (List CopyItem))
          → ((name : VfsPath) → Leaves P NonEmpty (f name))
          → Leaves P NonEmpty
              (elim o as (λ _. M W JobError (List CopyItem)) [ none ↦ fail e | some n ↦ f n ])
      by_name none e f named = Leaves-fail
      by_name (some n) e f named = named n

      plan_item-NonEmpty :
          (src : Vfs W)
          → IsPlanned P src
          → (dest : VfsPath) (item : VfsPath) (out : List CopyItem)
          → Leaves P NonEmpty (plan_item env paths fuel retries rounds src dest item out)
      unfolding plan_item
      plan_item-NonEmpty src planned dest item out = by_name (paths.file_name item) _ _ λ name.
          Leaves-map_err vfs_error
            (walk_for_copy-NonEmpty paths src planned fuel item (paths.join dest name) out)

      asked-kept :
          (remote_is_src : Bool) (vfs : Vfs W) (o : Option (RemoteFileAgent W) × W)
          → P o.1
          → P (or_stream env retries rounds remote_is_src o).1
      unfolding or_stream
      asked-kept remote_is_src vfs (some agent, w) p = p
      asked-kept remote_is_src vfs (none, w) p = p

      enabled-kept :
          (here there : Location) (src dst : Vfs W)
          → IsPlanned P src
          → IsPlanned P dst
          → (w : W) → P w
          → P (negotiate_enabled env retries rounds here there src dst w).1
      unfolding negotiate_enabled
      enabled-kept local (remote _) src dst from to w p =
          asked-kept false dst (dst.fast_transport w) (to.connects w p)
      enabled-kept (remote _) local src dst from to w p =
          asked-kept true src (src.fast_transport w) (from.connects w p)
      enabled-kept local local src dst from to w p = p
      enabled-kept local (archive _ _) src dst from to w p = p
      enabled-kept (remote _) (remote _) src dst from to w p = p
      enabled-kept (remote _) (archive _ _) src dst from to w p = p
      enabled-kept (archive _ _) there src dst from to w p = p

      negotiate-kept :
          (here there : Location) (src dst : Vfs W) (enabled : Bool)
          → IsPlanned P src
          → IsPlanned P dst
          → (w : W) → P w
          → P (negotiate_transport env retries rounds here there src dst enabled w).1
      unfolding negotiate_transport
      negotiate-kept here there src dst true from to w p =
          enabled-kept here there src dst from to w p
      negotiate-kept here there src dst false from to w p = p

      copy_job-Refused :
          (src dst : Vfs W) (here there : Location) (item : VfsPath) (items : List VfsPath)
          (dest : VfsPath) (enabled : Bool)
          → IsPlanned P src
          → IsPlanned P dst
          → Leaves P
              (λ _. ⊥)
              (copy_job env paths fuel retries rounds src dst here there
                (item ∷ items)
                dest
                enabled)
      unfolding copy_job plan_copy
      copy_job-Refused src dst here there item items dest enabled from to =
          Leaves-bind
            (planned-NonEmpty (plan_item env paths fuel retries rounds src dest) item items
              (plan_item-NonEmpty src from dest))
            λ plan some_plan. Leaves-bind (start-kept _) λ _ _.
              Leaves-bind
                (Leaves-total Any
                  (negotiate_transport env retries rounds here there src dst enabled)
                  (negotiate-kept here there src dst enabled from to) (λ _ _. tt))
                λ transport _.
                  loop-Refused (copy_one env src dst transport) plan
                    (copy_one-Refused src dst transport) some_plan

      delete_job-Refused :
          (vfs : Vfs W) (item : VfsPath) (items : List VfsPath)
          → IsPlanned P vfs
          → Leaves P (λ _. ⊥) (delete_job env paths fuel retries rounds vfs (item ∷ items))
      unfolding delete_job plan_delete
      delete_job-Refused vfs item items planned =
          Leaves-bind
            (planned-NonEmpty _ item items
              (λ y out. Leaves-map_err vfs_error (walk_for_delete-NonEmpty vfs planned fuel y out)))
            λ plan some_plan.
              Leaves-bind (start-kept _)
                λ _ _. loop-Refused (delete_one env vfs) plan (delete_one-Refused vfs) some_plan

      -- A job that copies, deletes or moves, within a backend or between two, and has something to do, started when
      -- the token is set, whatever the backends hold: it never returns `Ok`, and keeps all (`P`) that planning,
      -- asking for the fast path, looking at the token and reporting progress keep. Nothing else is called,
      -- so that no entry is copied, deleted or moved.
      pub jobs-Refused :
          (src dst : Vfs W) (here there : Location) (item : VfsPath) (items : List VfsPath)
          (dest : VfsPath) (enabled : Bool) (move : VfsPath × VfsPath)
          (moves : List (VfsPath × VfsPath))
          → IsPlanned P src
          → IsPlanned P dst
          → Leaves P
              (λ _. ⊥)
              (copy_job env paths fuel retries rounds src dst here there
                (item ∷ items)
                dest
                enabled)
            × Leaves P
                (λ _. ⊥)
                (move_cross_backend env paths fuel retries rounds src dst here there
                  (item ∷ items)
                  dest
                  enabled)
            × Leaves P (λ _. ⊥) (delete_job env paths fuel retries rounds dst (item ∷ items))
            × Leaves P (λ _. ⊥) (move_job env dst (move ∷ moves))
      unfolding move_cross_backend move_job
      jobs-Refused src dst here there item items dest enabled move moves from to =
          let copies = copy_job-Refused src dst here there item items dest enabled from to in
          (
            copies,
            Leaves-bind copies λ _ never. absurd never,
            delete_job-Refused dst item items to,
            Leaves-bind (start-kept _)
                λ _ _. loop-Refused (move_one env dst) (move ∷ moves) (move_one-Refused dst) tt,
          )
