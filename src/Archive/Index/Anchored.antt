-- ===== src/Archive/Index/Anchored.antt =====
-- crates/vfs-archive/src/index.rs, `build_index` and `insert_ancestors`: the directories on the way to an entry.
use mathlib.Core.Option
use mathlib.Core.Option.{some-injective}
use pfnc.Prelude.{
  ℕ, suc, ◌≤◌, ◌<◌, max, ◌≡◌, ◌∙◌, inl, inr, refl, ap, sym, Bool, true, false, ◌||◌, some, List, [],
  ◌∷◌, ◌++◌, length, str_eq, str_eq_iff, str_eq_refl, arith, sort_by,
}
use pfnc.Vfs.{VfsPath}
use pfnc.Vfs.Interface.{PathLib}
use pfnc.Archive.{RawEntry, ArchiveEntry, root_path}
use pfnc.Archive.Index.{
  contains_key, has_path, parent_of, missing, build_index, insert_raws, add_all,
}
use pfnc.Archive.Index.Keys.{
  contains_key-add_all, contains_key-sort_by, or_assoc, or-cases, or_right,
}
use pfnc.Archive.Index.Climb.{known, widened, Climbs, ancestors-Climbs, reach-parent_of}

has_path-append :
    (p : VfsPath) (xs ys : List VfsPath) → has_path p (xs ++ ys) ≡ has_path p xs || has_path p ys
has_path-append p [] ys = refl
has_path-append p (x ∷ xs) ys =
    rw (has_path-append p xs ys) (sym (or_assoc (str_eq x p) (has_path p xs) (has_path p ys)))

module _ (paths : PathLib) (by_path : List ArchiveEntry)
    (shortens : (p d : VfsPath) → paths.parent p ≡ some d → length d < length p) where
  -- What is added for some of the entries: their parents are known, and the parents of what is added.
  record Covers (es : List ArchiveEntry) (added : List VfsPath) : Type 0 where
    covers_keys :
        (p d : VfsPath)
        → contains_key p es ≡ true
        → parent_of paths p ≡ some d
        → known paths by_path added d ≡ true
    covers_added :
        (p d : VfsPath)
        → has_path p added ≡ true
        → parent_of paths p ≡ some d
        → known paths by_path added d ≡ true

  widened_left : (b x y : Bool) → b || x ≡ true → b || (x || y) ≡ true
  widened_left true x y h = refl
  widened_left false true y h = refl
  widened_left false false y h = absurd (cc)

  known-append_left :
      (here rest : List VfsPath) (d : VfsPath)
      → known paths by_path here d ≡ true
      → known paths by_path (here ++ rest) d ≡ true
  known-append_left here rest d h =
      rw (has_path-append d here rest) (widened_left _ (has_path d here) _ h)

  known-append_right :
      (here rest : List VfsPath) (d : VfsPath)
      → known paths by_path rest d ≡ true
      → known paths by_path (here ++ rest) d ≡ true
  known-append_right here rest d h =
      rw (has_path-append d here rest)
        (widened paths by_path _ (has_path d here) (has_path d rest) h)

  Covers-cons :
      (e : ArchiveEntry) (es : List ArchiveEntry) (here rest : List VfsPath)
      → Climbs paths by_path (parent_of paths e.path) here
      → Covers es rest
      → Covers (e ∷ es) (here ++ rest)
  Covers-cons e es here rest climbs covers = record {
    covers_keys = λ p d held up. elim (or-cases (str_eq e.path p) (contains_key p es) held) [
      | inl same ↦
          known-append_left here rest d
            (climbs.climbs_first d (ap (parent_of paths) ((str_eq_iff e.path p).0 same) ∙ up))
      | inr later ↦ known-append_right here rest d (covers.covers_keys p d later up)
    ];
    covers_added = λ p d held up.
        elim (or-cases (has_path p here) (has_path p rest)
          (sym (has_path-append p here rest) ∙ held)) [
            | inl first ↦ known-append_left here rest d (climbs.climbs_on p d first up)
            | inr later ↦ known-append_right here rest d (covers.covers_added p d later up)
          ];
  }

  missing-Covers :
      (fuel : ℕ) (es : List ArchiveEntry)
      → ((p : VfsPath) → contains_key p es ≡ true → length p ≤ fuel)
      → (added : List VfsPath) × (missing paths by_path (suc fuel) es ≡ some added)
        × Covers es added
  unfolding missing Option.bind
  missing-Covers fuel [] short = (
    [],
    refl,
    record { covers_keys = λ p d h _. absurd (cc); covers_added = λ p d h _. absurd (cc) },
  )
  missing-Covers fuel (e ∷ es) short =
      let (here, run, climbs) =
        ancestors-Climbs paths by_path shortens fuel (parent_of paths e.path) (
          omega (
            arith,
            reach-parent_of paths by_path shortens e.path,
            short e.path (rw (str_eq_refl e.path) refl),
          )) in
      let (rest, runs, covers) =
        missing-Covers fuel es
          (λ p held. short p (or_right (str_eq e.path p) (contains_key p es) held)) in
      (here ++ rest, rw (run, runs) refl, Covers-cons e es here rest climbs covers)

-- Every path that is in an index has its parent in it, up to the root.
abbrev pub Anchored : PathLib → List ArchiveEntry → Type 0
Anchored paths entries =
    (p d : VfsPath)
    → contains_key p entries ≡ true
    → parent_of paths p ≡ some d
    → (str_eq d root_path || contains_key d entries) ≡ true

-- A bound of the lengths of the paths.
longest : List ArchiveEntry → ℕ
longest [] = 0
longest (e ∷ es) = max (length e.path) (longest es)

longest_lem :
    (es : List ArchiveEntry) (p : VfsPath) → contains_key p es ≡ true → length p ≤ longest es
unfolding longest
longest_lem [] p held = absurd (cc)
longest_lem (e ∷ es) p held = elim (or-cases (str_eq e.path p) (contains_key p es) held) [
  | inl same ↦ rw (← (str_eq_iff e.path p).0 same) (omega arith)
  | inr later ↦ omega (arith, longest_lem es p later)
]

-- For any entries of an archive, with enough fuel `build_index` returns an index: it holds every path
-- that the raw entries have (and that is not refused), and the parent directory of each of its paths
-- unless that is the root. What is asked of the library of paths is that a parent is shorter, and of
-- the map that it lists its own entries in some order.
pub build_index-Anchored :
    (paths : PathLib) (order : List ArchiveEntry → List ArchiveEntry)
    (before : VfsPath → VfsPath → Bool) (raw_entries : List RawEntry)
    → ((p d : VfsPath) → paths.parent p ≡ some d → length d < length p)
    → ((p : VfsPath) (es : List ArchiveEntry) → contains_key p (order es) ≡ contains_key p es)
    → (n : ℕ) × ((fuel : ℕ)
        → n ≤ fuel
        → (entries : List ArchiveEntry) × (build_index paths order before (suc fuel) raw_entries
            ≡ some entries)
          × Anchored paths entries
          × ((p : VfsPath)
              → contains_key p (insert_raws raw_entries []) ≡ true
              → contains_key p entries ≡ true))
unfolding build_index
build_index-Anchored paths order before raw_entries shortens lists =
    let by_path = insert_raws raw_entries [] in
    (
      longest by_path,
      λ fuel enough.
          let (added, run, covers) =
            missing-Covers paths by_path shortens fuel (order by_path) (λ p has.
              omega (arith, enough, longest_lem by_path p (sym (lists p by_path) ∙ has))) in
          let entries = sort_by (λ a b. before a.path b.path) (order (add_all added by_path)) in
          let held : (p : VfsPath)
              → contains_key p entries ≡ contains_key p by_path || has_path p added =
            λ p.
              contains_key-sort_by p (λ a b. before a.path b.path) (order (add_all added by_path))
              ∙ lists p (add_all added by_path)
              ∙ contains_key-add_all p added by_path in
          (
            entries,
            ap (Option.map _) run,
            (λ p d has up. rw (held d) (
                sym (or_assoc (str_eq d root_path) (contains_key d by_path) (has_path d added))
                ∙ elim (or-cases (contains_key p by_path) (has_path p added) (sym (held p) ∙ has)) [
                  | inl key ↦ covers.covers_keys p d (lists p by_path ∙ key) up
                  | inr new ↦ covers.covers_added p d new up
                ])),
            λ p key. rw (held p, key) refl,
          ),
    )
