-- ===== src/Keymap/Bindings.antt =====
-- crates/app/src/keymap.rs, `Keymap::from_overrides`: which key each action gets.
use mathlib.Core.Option
use pfnc.Prelude.{
  ◌≡◌, ◌⊎◌, inl, inr, refl, Option, Option-cases, none, some, List, [], ◌∷◌, Str, All,
}
use pfnc.Keys.{KeyCode, f_key}
use pfnc.Keymap.{default_bindings, parse_key_name, chosen_key, from_overrides, from_overrides_of}

-- The key of one action: what the override says, if it is there and names a key, and else the default.
abbrev pub Resolved : Option Str → Str → KeyCode → Type 0
Resolved override default_key key =
    (Option.bind override parse_key_name ≡ some key)
    ⊎ ((Option.bind override parse_key_name ≡ none) × (parse_key_name default_key ≡ some key))

-- Each action of the defaults has its key, and there is no other action.
abbrev pub AllResolved : (Str → Option Str) → List (Str × Str) → List (Str × KeyCode) → Type 0
AllResolved overrides [] [] = Unit {0}
AllResolved overrides [] (_ ∷ _) = ⊥
AllResolved overrides (_ ∷ _) [] = ⊥
AllResolved overrides ((a, d) ∷ ds) ((b, key) ∷ bs) =
    (b ≡ a) × Resolved (overrides a) d key × AllResolved overrides ds bs

abbrev Parses : Str × Str → Type 0
Parses (_, d) = (key : KeyCode) × (parse_key_name d ≡ some key)

chosen_key-Resolved :
    (override : Option Str) (d : Str)
    → Parses (d, d)
    → (key : KeyCode) × (chosen_key d (Option.bind override parse_key_name) ≡ some key)
      × Resolved override d key
unfolding chosen_key
chosen_key-Resolved override d (key, e) =
    elim (Option-cases (Option.bind override parse_key_name)) [
      | inl no_override ↦ (key, rw no_override e, inr (no_override, e))
      | inr (chosen, names) ↦ (chosen, rw names refl, inl names)
    ]

from_overrides_of-AllResolved :
    (overrides : Str → Option Str) (ds : List (Str × Str))
    → All Parses ds
    → (bindings : List (Str × KeyCode)) × (from_overrides_of overrides ds ≡ some bindings)
      × AllResolved overrides ds bindings
unfolding from_overrides_of Option.bind
from_overrides_of-AllResolved overrides [] parses = ([], refl, tt)
from_overrides_of-AllResolved overrides ((a, d) ∷ ds) (first, later) =
    let (key, e, r) = chosen_key-Resolved (overrides a) d first in
    let (bindings, run, rs) = from_overrides_of-AllResolved overrides ds later in
    ((a, key) ∷ bindings, rw (e, run) refl, (refl, r, rs))

defaults_parse : All Parses default_bindings
unfolding parse_key_name Option.bind
defaults_parse = (
  (f_key 10, refl),
  (
    (f_key 1, refl),
    (
      (f_key 3, refl),
      (
        (f_key 4, refl),
        (
          (f_key 5, refl),
          ((f_key 6, refl), ((f_key 7, refl), ((f_key 8, refl), ((f_key 9, refl), tt)))),
        ),
      ),
    ),
  ),
)

-- Whatever the overrides are, building the keymap does not panic, and it binds the actions of the defaults
-- and no other: each to the key that its override names, or, without an override that names a key, to its
-- default.
pub from_overrides-AllResolved :
    (overrides : Str → Option Str)
    → (bindings : List (Str × KeyCode)) × (from_overrides overrides ≡ some bindings)
      × AllResolved overrides default_bindings bindings
unfolding from_overrides
from_overrides-AllResolved overrides =
    from_overrides_of-AllResolved overrides default_bindings defaults_parse
