-- ===== src/Keymap.antt =====
-- crates/app/src/keymap.rs. The `HashMap` of overrides is the function `overrides`; the one of the bindings
-- is the list of its pairs in the order `order`.
mod Bindings
mod Tests
use mathlib.Core.Option
use pfnc.Prelude.{
  ℕ, zero, suc, Bool, true, false, not, ◌||◌, ◌&&◌, Option, none, some, List, [], ◌∷◌, ◌++◌, map,
  Str, str_eq, codes, is_empty, ◌==◌, if◌then◌else◌,
}
use pfnc.Prelude.Decimal.{is_digit, parse_unsigned}
use pfnc.Keys.{
  KeyCode, f_key, char, esc, enter, tab, backspace, left, right, up, down, home, end_key, page_up,
  page_down, unnamed,
}
use pfnc.Connect.{trim}

abbrev pub default_bindings : List (Str × Str)
default_bindings =
    (codes "quit", codes "F10")
    ∷ (codes "help", codes "F1")
    ∷ (codes "edit", codes "F3")
    ∷ (codes "sync", codes "F4")
    ∷ (codes "copy", codes "F5")
    ∷ (codes "move", codes "F6")
    ∷ (codes "mkdir", codes "F7")
    ∷ (codes "delete", codes "F8")
    ∷ (codes "connect", codes "F9")
    ∷ []

abbrev pub all_digits : Str → Bool
all_digits [] = true
all_digits (c ∷ s) = is_digit c && all_digits s

-- What follows `F` or `f`, when it is a number.
abbrev pub function_number : Str → Option Str
function_number [] = none
function_number (c ∷ rest) =
    if (c == b'F' || c == b'f') && not (is_empty rest) && all_digits rest then some rest else none

abbrev pub single : Str → Option KeyCode
single (c ∷ []) = some (char c)
single _ = none

abbrev pub named_keys : List (Str × KeyCode)
named_keys =
    (codes "Esc", esc)
    ∷ (codes "Escape", esc)
    ∷ (codes "Enter", enter)
    ∷ (codes "Return", enter)
    ∷ (codes "Tab", tab)
    ∷ (codes "Backspace", backspace)
    ∷ (codes "Space", char b' ')
    ∷ (codes "Left", left)
    ∷ (codes "Right", right)
    ∷ (codes "Up", up)
    ∷ (codes "Down", down)
    ∷ (codes "Home", home)
    ∷ (codes "End", end_key)
    ∷ []

-- The arms of `match s`.
abbrev pub key_named : Str → List (Str × KeyCode) → Option KeyCode
key_named s [] = single s
key_named s ((name, key) ∷ rest) =
    let later = key_named s rest in if str_eq name s then some key else later

abbrev pub key_of : Str → Option Str → Option KeyCode
key_of s none = key_named s named_keys
key_of s (some digits) = Option.map f_key (parse_unsigned 255 digits)

unfoldable pub parse_key_name : Str → Option KeyCode
unfolding parse_unsigned
parse_key_name text = let s = trim text in key_of s (function_number s)

-- `==` of `KeyCode`.
abbrev pub same_key : KeyCode → KeyCode → Bool
same_key (f_key a) (f_key b) = a == b
same_key (char a) (char b) = a == b
same_key (unnamed a) (unnamed b) = a == b
same_key esc esc = true
same_key enter enter = true
same_key tab tab = true
same_key backspace backspace = true
same_key left left = true
same_key right right = true
same_key up up = true
same_key down down = true
same_key home home = true
same_key end_key end_key = true
same_key page_up page_up = true
same_key page_down page_down = true
same_key _ _ = false

-- The key of an action; `none` is the panic of `expect`.
abbrev pub chosen_key : Str → Option KeyCode → Option KeyCode
unfolding parse_key_name
chosen_key default_key (some key) = some key
chosen_key default_key none = parse_key_name default_key

unfoldable pub from_overrides_of :
    (Str → Option Str) → List (Str × Str) → Option (List (Str × KeyCode))
unfolding chosen_key
from_overrides_of overrides [] = some []
from_overrides_of overrides ((action, default_key) ∷ rest) =
    Option.bind (chosen_key default_key (Option.bind (overrides action) parse_key_name))
      λ key. Option.map ((action, key) ∷◌) (from_overrides_of overrides rest)

unfoldable pub from_overrides : (Str → Option Str) → Option (List (Str × KeyCode))
unfolding from_overrides_of
from_overrides overrides = from_overrides_of overrides default_bindings

abbrev pub action_in : KeyCode → List (Str × KeyCode) → Option Str
action_in key [] = none
action_in key ((action, k) ∷ rest) =
    let later = action_in key rest in if same_key k key then some action else later

unfoldable pub action_for :
    (List (Str × KeyCode) → List (Str × KeyCode)) → List (Str × KeyCode) → KeyCode → Option Str
action_for order bindings key = action_in key (order bindings)
