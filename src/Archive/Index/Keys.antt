-- ===== src/Archive/Index/Keys.antt =====
-- Which paths the maps of `build_index` hold.
use pfnc.Prelude.{
  ◌≡◌, ◌∙◌, ◌⊎◌, inl, inr, refl, ap, sym, Bool, true, false, ◌||◌, Bool-cases, List, [], ◌∷◌, ◌++◌,
  str_eq, str_eq_iff, sort_by, sort_into,
}
use pfnc.Vfs.{VfsPath}
use pfnc.Archive.{ArchiveEntry}
use pfnc.Archive.Index.{contains_key, has_path, or_insert, add_all, synthesized}

pub or_false : (b : Bool) → b || false ≡ b
or_false true = refl
or_false false = refl

pub or_assoc : (a b c : Bool) → (a || b) || c ≡ a || (b || c)
or_assoc true b c = refl
or_assoc false b c = refl

or_swap : (a b c : Bool) → a || (b || c) ≡ b || (a || c)
or_swap true true c = refl
or_swap true false c = refl
or_swap false b c = refl

pub or-cases : (a b : Bool) → a || b ≡ true → (a ≡ true) ⊎ (b ≡ true)
or-cases true b h = inl refl
or-cases false b h = inr h

pub or_right : (a b : Bool) → b ≡ true → a || b ≡ true
or_right true b h = refl
or_right false b h = h

contains_key-append :
    (p : VfsPath) (xs ys : List ArchiveEntry)
    → contains_key p (xs ++ ys) ≡ contains_key p xs || contains_key p ys
contains_key-append p [] ys = refl
contains_key-append p (x ∷ xs) ys =
    rw (contains_key-append p xs ys)
      (sym (or_assoc (str_eq x.path p) (contains_key p xs) (contains_key p ys)))

absorbed :
    (p d : VfsPath) (es : List ArchiveEntry) (same : Bool)
    → str_eq d p ≡ same
    → contains_key d es ≡ true
    → contains_key p es ≡ contains_key p es || same
absorbed p d es false e held = sym (or_false (contains_key p es))
absorbed p d es true e held =
    let there : contains_key p es ≡ true = rw (← (str_eq_iff d p).0 e) held in rw there refl

contains_key-or_insert :
    (p d : VfsPath) (es : List ArchiveEntry)
    → contains_key p (or_insert d es) ≡ contains_key p es || str_eq d p
contains_key-or_insert p d es = elim (Bool-cases (contains_key d es)) [
  | inl held ↦ rw held (absorbed p d es (str_eq d p) refl held)
  | inr new ↦ rw new (
      contains_key-append p es (synthesized d ∷ [])
      ∙ ap (λ b. contains_key p es || b) (or_false (str_eq d p)))
]

-- The paths to add are there at the end, with those from before.
pub contains_key-add_all :
    (p : VfsPath) (ds : List VfsPath) (es : List ArchiveEntry)
    → contains_key p (add_all ds es) ≡ contains_key p es || has_path p ds
contains_key-add_all p [] es = sym (or_false (contains_key p es))
contains_key-add_all p (d ∷ ds) es =
    contains_key-add_all p ds (or_insert d es)
    ∙ rw (contains_key-or_insert p d es) (or_assoc (contains_key p es) (str_eq d p) (has_path p ds))

module _ (p : VfsPath) (before : ArchiveEntry → ArchiveEntry → Bool) where
  contains_key-sort_into :
      (x : ArchiveEntry) (es : List ArchiveEntry)
      → contains_key p (sort_into before x es) ≡ str_eq x.path p || contains_key p es
  contains_key-sort_into x [] = refl
  contains_key-sort_into x (e ∷ es) = elim (Bool-cases (before x e)) [
    | inl first ↦ rw first refl
    | inr later ↦ rw later (
        ap (λ b. str_eq e.path p || b) (contains_key-sort_into x es)
        ∙ or_swap (str_eq e.path p) (str_eq x.path p) (contains_key p es))
  ]

  pub contains_key-sort_by :
      (es : List ArchiveEntry) → contains_key p (sort_by before es) ≡ contains_key p es
  contains_key-sort_by [] = refl
  contains_key-sort_by (e ∷ es) =
      contains_key-sort_into e (sort_by before es)
      ∙ ap (λ b. str_eq e.path p || b) (contains_key-sort_by es)
