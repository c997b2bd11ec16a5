-- ===== src/Archive/Index/Climb.antt =====
-- crates/vfs-archive/src/index.rs, `insert_ancestors`: the climb from one entry towards the root.
use mathlib.Core.Option
use mathlib.Core.Option.{some-injective}
use pfnc.Prelude.{
  ℕ, zero, suc, ◌+◌, ◌≤◌, ◌<◌, ◌≡◌, ◌∙◌, inl, inr, refl, ap, subst, Bool, true, false, ◌||◌,
  Bool-cases, Option, Option-cases, none, some, List, [], ◌∷◌, length, is_empty, if◌then◌else◌,
  str_eq, str_eq_iff, str_eq_refl, arith,
}
use pfnc.Vfs.{VfsPath}
use pfnc.Vfs.Interface.{PathLib}
use pfnc.Archive.{ArchiveEntry, root_path}
use pfnc.Archive.Index.{contains_key, has_path, parent_of, ancestors}
use pfnc.Archive.Index.Keys.{or_false}

module _ (paths : PathLib) (by_path : List ArchiveEntry) where
  -- The root, what the map holds, and what is to be added.
  abbrev pub known : List VfsPath → VfsPath → Bool
  known added d = (str_eq d root_path || contains_key d by_path) || has_path d added

  found : (b : Bool) → b || true ≡ true
  found true = refl
  found false = refl

  pub record Climbs (start : Option VfsPath) (added : List VfsPath) : Type 0 where
    pub climbs_first : (d : VfsPath) → start ≡ some d → known added d ≡ true
    pub climbs_on :
        (p d : VfsPath)
        → has_path p added ≡ true
        → parent_of paths p ≡ some d
        → known added d ≡ true

  pub widened : (b c x : Bool) → b || x ≡ true → b || (c || x) ≡ true
  widened true c x h = refl
  widened false true x h = refl
  widened false false x h = h

  Climbs-none : Climbs none []
  Climbs-none = record { climbs_first = λ d e. absurd (cc); climbs_on = λ p d held _. absurd (cc) }

  Climbs-stop :
      (x : VfsPath) → str_eq x root_path || contains_key x by_path ≡ true → Climbs (some x) []
  Climbs-stop x h = record {
    climbs_first = λ d e. subst (λ y. known [] y ≡ true) (some-injective x d e) (or_false _ ∙ h);
    climbs_on = λ p d held _. absurd (cc);
  }

  Climbs-push :
      (x : VfsPath) (added : List VfsPath)
      → Climbs (parent_of paths x) added
      → Climbs (some x) (x ∷ added)
  Climbs-push x added rest = record {
    climbs_first = λ d e.
        subst (λ y. known (x ∷ added) y ≡ true) (some-injective x d e)
          (rw (str_eq_refl x) (found _));
    climbs_on = λ p d held up. elim (Bool-cases (str_eq x p)) [
      | inl same ↦
          widened _ (str_eq x d) _
            (rest.climbs_first d (ap (parent_of paths) ((str_eq_iff x p).0 same) ∙ up))
      | inr differ ↦ widened _ (str_eq x d) _ (rest.climbs_on p d (rw differ at held) up)
    ];
  }

  -- How many turns the climb may still take.
  unfoldable pub reach : Option VfsPath → ℕ
  reach none = 0
  reach (some x) = if str_eq x root_path then 0 else length x + 1

  module _ (shortens : (p d : VfsPath) → paths.parent p ≡ some d → length d < length p) where
    reach-cleaned :
        (d : VfsPath) (n : ℕ)
        → length d < n
        → reach (some (if is_empty d then root_path else d)) ≤ n
    unfolding reach
    reach-cleaned [] n h = omega arith
    reach-cleaned (c ∷ d) n h = elim (Bool-cases (str_eq (c ∷ d) root_path)) [
      | inl root ↦ rw root (omega arith)
      | inr below ↦ rw below (omega arith)
    ]

    pub reach-parent_of : (x : VfsPath) → reach (parent_of paths x) ≤ length x
    unfolding reach parent_of
    reach-parent_of x = elim (Option-cases (paths.parent x)) [
      | inl top ↦ rw top (omega arith)
      | inr (d, up) ↦ rw up (reach-cleaned d (length x) (shortens x d up))
    ]

    left_false : (a b : Bool) → a || b ≡ false → a ≡ false
    left_false true b h = cc
    left_false false b h = refl

    some_way :
        (fuel : ℕ) (x : VfsPath)
        → reach (some x) ≤ fuel
        → str_eq x root_path || contains_key x by_path ≡ false
        → length x < fuel
    unfolding reach
    some_way fuel x enough go =
        omega (arith, rw (left_false (str_eq x root_path) (contains_key x by_path) go) at enough)

    pub ancestors-Climbs :
        (fuel : ℕ) (start : Option VfsPath)
        → reach start ≤ fuel
        → (added : List VfsPath) × (ancestors paths by_path (suc fuel) start ≡ some added)
          × Climbs start added
    unfolding ancestors
    ancestors-Climbs fuel none enough = ([], refl, Climbs-none)
    ancestors-Climbs zero (some x) enough =
        elim (Bool-cases (str_eq x root_path || contains_key x by_path)) [
          | inl stop ↦ ([], rw (ancestors, stop) refl, Climbs-stop x stop)
          | inr go ↦ absurd (omega (arith, some_way zero x enough go))
        ]
    ancestors-Climbs (suc fuel) (some x) enough =
        elim (Bool-cases (str_eq x root_path || contains_key x by_path)) [
          | inl stop ↦ ([], rw (ancestors, stop) refl, Climbs-stop x stop)
          | inr go ↦
              let (added, run, rest) =
                ancestors-Climbs fuel (parent_of paths x)
                  (omega (arith, some_way (suc fuel) x enough go, reach-parent_of x)) in
              (x ∷ added, rw (ancestors, go) (ap (Option.map (x ∷◌)) run), Climbs-push x added rest)
        ]
