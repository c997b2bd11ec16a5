-- ===== src/Registry/Cache.antt =====
-- crates/app/src/registry.rs: what `resolve` finds after a location was opened.
use pfnc.Prelude.{
  ◌≡◌, ◌≢◌, refl, ap, sym, ◌∙◌, subst, true, false, some, ◌∷◌, str_eq_iff, arith, ◌↔◌, Bool-cases,
  inl, inr, Option-cases,
}
use pfnc.Effect.{ok, ok_of_then_run, M, ok-injective}
use pfnc.Vfs.{VfsPath, Location, local, remote, archive, same_location, VfsError}
use pfnc.Vfs.Interface.{Vfs, PathLib}
use pfnc.Archive.Fs.{ArchiveFormat, detect_format}
use pfnc.Registry.{VfsRegistry, resolve, open_archive_and_cache, given}

-- The derived `==` is equality.
pub same_location_iff : (a b : Location) → (same_location a b ≡ true) ↔ (a ≡ b)
unfolding same_location
same_location_iff local local = (λ _. refl, λ _. refl)
same_location_iff local (remote _) = (λ h. cc, λ h. cc)
same_location_iff local (archive _ _) = (λ h. cc, λ h. cc)
same_location_iff (remote _) local = (λ h. cc, λ h. cc)
same_location_iff (remote p) (remote q) = ground (arith, str_eq_iff p q)
same_location_iff (remote _) (archive _ _) = (λ h. cc, λ h. cc)
same_location_iff (archive _ _) local = (λ h. cc, λ h. cc)
same_location_iff (archive _ _) (remote _) = (λ h. cc, λ h. cc)
same_location_iff (archive b p) (archive c q) =
    ground (arith, str_eq_iff p q, same_location_iff b c)

pub same_location_refl : (a : Location) → same_location a a ≡ true
same_location_refl a = (same_location_iff a a).1 refl

same_location_ne : (a b : Location) → b ≢ a → same_location a b ≡ false
same_location_ne a b differ = elim (Bool-cases (same_location a b)) [
  | inl same ↦ absurd (differ (sym ((same_location_iff a b).0 same)))
  | inr apart ↦ apart
]

-- One archive more.
abbrev with_archive : {W : Type 0} → Location → Vfs W → VfsRegistry W → VfsRegistry W
with_archive l fs r = record r { archives = (l, fs) ∷ r.archives }

resolve-with_archive :
    {W : Type 0} (base : Location) (path : VfsPath) (fs : Vfs W) (r : VfsRegistry W)
    → resolve (with_archive (archive base path) fs r) (archive base path) ≡ ok fs
unfolding resolve
resolve-with_archive base path fs r = rw (same_location_refl (archive base path)) refl

resolve-with_archive_other :
    {W : Type 0} (base : Location) (path : VfsPath) (fs : Vfs W) (r : VfsRegistry W)
    (other : Location)
    → other ≢ archive base path
    → resolve (with_archive (archive base path) fs r) other ≡ resolve r other
unfolding resolve
resolve-with_archive_other base path fs r local differ = refl
resolve-with_archive_other base path fs r (remote p) differ = refl
resolve-with_archive_other base path fs r (archive b p) differ =
    rw (same_location_ne (archive base path) (archive b p) differ) refl

-- What opening an archive takes, and leaves in the registry.
pub record Opened {W : Type 0} (paths : PathLib)
    (open_archive : Vfs W → VfsPath → ArchiveFormat → M W VfsError (Vfs W)) (base : Location)
    (path : VfsPath) (r r' : VfsRegistry W) (w : W) : Type 0 where
  pub base_vfs : Vfs W
  pub opened : Vfs W
  pub format : ArchiveFormat
  pub by_name : detect_format paths path ≡ some format
  pub on_base : resolve r base ≡ ok base_vfs
  pub made : (open_archive base_vfs path format w).0 ≡ ok opened
  pub found : resolve r' (archive base path) ≡ ok opened
  pub others : (other : Location) → other ≢ archive base path → resolve r' other ≡ resolve r other

module _ {W : Type 0} (paths : PathLib)
    (open_archive : Vfs W → VfsPath → ArchiveFormat → M W VfsError (Vfs W)) where
  -- When an archive was opened from a location, that location resolves to the backend that was opened from
  -- the backend of the location below it; every other location resolves to what it did before.
  pub open_archive_and_cache_lem :
      (base : Location) (path : VfsPath) (r r' : VfsRegistry W) (w : W)
      → (open_archive_and_cache paths open_archive (archive base path) r w).0 ≡ ok r'
      → Opened paths open_archive base path r r' w
  unfolding open_archive_and_cache
  open_archive_and_cache_lem base path r r' w done =
      elim (Option-cases (detect_format paths path)) [
        | inl unknown ↦ absurd (cc (rw unknown at done))
        | inr (format, known) ↦
            let from_base = rw known at done in
            let (base_vfs, on_base, rest) = ok_of_then_run (given (resolve r base) w) _ from_base in
            let from_open = sym (ap (λ o. o.0) rest) ∙ from_base in
            let (fs, made, end) =
              ok_of_then_run (open_archive base_vfs path format w) _ from_open in
            let same : with_archive (archive base path) fs r ≡ r' =
              ok-injective (sym (ap (λ o. o.0) end) ∙ from_open) in
            record {
              base_vfs = base_vfs;
              opened = fs;
              format = format;
              by_name = known;
              on_base = on_base;
              made = made;
              found =
                  subst (λ q. resolve q (archive base path) ≡ ok fs) same
                    (resolve-with_archive base path fs r);
              others = λ other differ.
                  subst (λ q. resolve q other ≡ resolve r other) same
                    (resolve-with_archive_other base path fs r other differ);
            }
      ]
