-- ===== src/Keymap/Tests.antt =====
-- Keymaps with an override that names a key, one that names none, and two actions on one key.
use mathlib.Core.Option
use pfnc.Prelude.{◌≡◌, refl, Option, none, some, List, [], ◌∷◌, codes, Str, str_eq, if◌then◌else◌}
use pfnc.Keys.{KeyCode, f_key}
use pfnc.Keymap.{default_bindings, parse_key_name, from_overrides, action_for}
use pfnc.Keymap.Bindings.{AllResolved, from_overrides-AllResolved}

abbrev copy_on : Str → Str → Option Str
copy_on key action = if str_eq action (codes "copy") then some key else none

lower_case_f : parse_key_name (codes " f11 ") ≡ some (f_key 11)
unfolding parse_key_name Option.bind
lower_case_f = refl

too_large : parse_key_name (codes "F300") ≡ none
unfolding parse_key_name Option.bind
too_large = refl

from_overrides-AllResolved_example :
    (bindings : List (Str × KeyCode)) × (from_overrides (copy_on (codes "c")) ≡ some bindings)
    × AllResolved (copy_on (codes "c")) default_bindings bindings
from_overrides-AllResolved_example = from_overrides-AllResolved (copy_on (codes "c"))

-- With `copy` on the key of `move`, the order of the map decides which of the two the key means.
clash :
    (action_for (λ bs. bs) ((codes "copy", f_key 6) ∷ (codes "move", f_key 6) ∷ []) (f_key 6)
      ≡ some (codes "copy"))
    × (action_for
          (λ bs. (codes "move", f_key 6) ∷ (codes "copy", f_key 6) ∷ [])
          ((codes "copy", f_key 6) ∷ (codes "move", f_key 6) ∷ [])
          (f_key 6)
        ≡ some (codes "move"))
unfolding action_for
clash = (refl, refl)
