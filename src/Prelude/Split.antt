-- ===== src/Prelude/Split.antt =====
-- `split` and `join` at a character, `trim_end_matches`, the ends of a text, and a stable sort.
use Prim.Native.Nat.{ℕ}
use mathlib.Core.Bool.{Bool, true, false}
use mathlib.Core.List.{List, [], ◌∷◌, ◌++◌, reverse}
use pfnc.Prelude.Tests.{◌==◌, if◌then◌else◌}
use pfnc.Prelude.Text.{Str}

abbrev pub push_front : ℕ → List Str → List Str
push_front x [] = (x ∷ []) ∷ []
push_front x (p ∷ ps) = (x ∷ p) ∷ ps

abbrev pub split : ℕ → Str → List Str
split c [] = [] ∷ []
split c (x ∷ s) = let rest = split c s in if x == c then [] ∷ rest else push_front x rest

abbrev pub join_with : Str → List Str → Str
join_with sep [] = []
join_with sep (p ∷ []) = p
join_with sep (p ∷ q ∷ ps) = p ++ (sep ++ join_with sep (q ∷ ps))

abbrev pub trim_end : ℕ → Str → Str
trim_end c [] = []
trim_end c (x ∷ s) = trim_step (trim_end c s)
  where
    trim_step : Str → Str
    trim_step [] = if x == c then [] else x ∷ []
    trim_step (y ∷ t) = x ∷ y ∷ t

abbrev pub starts_with : Str → Str → Bool
starts_with [] s = true
starts_with (x ∷ p) [] = false
starts_with (x ∷ p) (y ∷ s) = let rest = starts_with p s in if x == y then rest else false

abbrev pub ends_with : Str → Str → Bool
ends_with suffix s = starts_with (reverse suffix) (reverse s)

-- `sort_by`, which is stable; `leb x y` is that `x` need not come after `y`.
module _ {A : Type 0} (before : A → A → Bool) where
  abbrev pub sort_into : A → List A → List A
  sort_into x [] = x ∷ []
  sort_into x (y ∷ ys) = let rest = sort_into x ys in if before x y then x ∷ y ∷ ys else y ∷ rest

  abbrev pub sort_by : List A → List A
  sort_by [] = []
  sort_by (x ∷ xs) = sort_into x (sort_by xs)
