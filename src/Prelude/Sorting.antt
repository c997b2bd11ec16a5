-- ===== src/Prelude/Sorting.antt =====
-- What `sort_by` does, for a test that is total and transitive.
use mathlib.Core.Path.{◌≡◌, refl}
use mathlib.Core.Logic.{◌⊎◌, inl, inr}
use mathlib.Core.Bool.{Bool, true, false}
use mathlib.Core.List.{List, [], ◌∷◌}
use mathlib.Core.List.{Permᴰ}
use mathlib.Core.List.Permᴰ as Permuted
use pfnc.Prelude.Tests.{Bool-cases}
use pfnc.Prelude.Lists.{All}
use pfnc.Prelude.Split.{sort_into, sort_by}

module _ {A : Type 0} (before : A → A → Bool) where
  pub record IsOrder : Type 0 where
    pub total : (x y : A) → (before x y ≡ true) ⊎ (before y x ≡ true)
    pub transitive : (x y z : A) → before x y ≡ true → before y z ≡ true → before x z ≡ true

  -- Each entry comes before all that follow it.
  abbrev pub Ordered : List A → Type 0
  Ordered [] = Unit
  Ordered (x ∷ xs) = All (λ y. before x y ≡ true) xs × Ordered xs

  All-sort_into :
      (P : A → Type 0) (x : A) (ys : List A) → P x → All P ys → All P (sort_into before x ys)
  All-sort_into P x [] p all = (p, tt)
  All-sort_into P x (y ∷ ys) p all = elim (Bool-cases (before x y)) [
    | inl here ↦ rw here (p, all)
    | inr later ↦ rw later (all.0, All-sort_into P x ys p all.1)
  ]

  -- What comes before the head of an ordered list comes before all of it.
  All-before :
      (law : IsOrder) (x y : A) (ys : List A)
      → before x y ≡ true
      → All (λ z. before y z ≡ true) ys
      → All (λ z. before x z ≡ true) ys
  All-before law x y [] e all = tt
  All-before law x y (z ∷ ys) e all = (law.transitive x y z e all.0, All-before law x y ys e all.1)

  other_way : (law : IsOrder) (x y : A) → before x y ≡ false → before y x ≡ true
  other_way law x y e = elim (law.total x y) [ inl forth ↦ cc | inr back ↦ back ]

  sort_into-Ordered :
      (law : IsOrder) (x : A) (ys : List A) → Ordered ys → Ordered (sort_into before x ys)
  sort_into-Ordered law x [] ordered = (tt, tt)
  sort_into-Ordered law x (y ∷ ys) ordered = elim (Bool-cases (before x y)) [
    | inl here ↦ rw here ((here, All-before law x y ys here ordered.0), ordered)
    | inr later ↦ rw later (
      All-sort_into (λ z. before y z ≡ true) x ys (other_way law x y later) ordered.0,
      sort_into-Ordered law x ys ordered.1,
    )
  ]

  pub sort_by-Ordered : (law : IsOrder) (xs : List A) → Ordered (sort_by before xs)
  sort_by-Ordered law [] = tt
  sort_by-Ordered law (x ∷ xs) =
      sort_into-Ordered law x (sort_by before xs) (sort_by-Ordered law xs)

  Permᴰ-sort_into : (x : A) (ys : List A) → Permᴰ (sort_into before x ys) (x ∷ ys)
  Permᴰ-sort_into x [] = Permuted.refl (x ∷ [])
  Permᴰ-sort_into x (y ∷ ys) = elim (Bool-cases (before x y)) [
    | inl here ↦ rw here (Permuted.refl (x ∷ y ∷ ys))
    | inr later ↦
        rw later (Permᴰ.trans (Permᴰ.cons refl (Permᴰ-sort_into x ys)) (Permᴰ.swap refl refl))
  ]

  -- Nothing is lost and nothing comes twice.
  pub sort_by-Permᴰ : (xs : List A) → Permᴰ (sort_by before xs) xs
  sort_by-Permᴰ [] = Permᴰ.nil
  sort_by-Permᴰ (x ∷ xs) =
      Permᴰ.trans (Permᴰ-sort_into x (sort_by before xs)) (Permᴰ.cons refl (sort_by-Permᴰ xs))
