-- ===== src/Editable/Keys.antt =====
-- crates/core/src/mode.rs and the editing keys of `handle_text_input_key` in crates/app/src/actions.rs:
-- sequences of keys on an `EditableText`.
use mathlib.Core.Option
use pfnc.Prelude.{
  ℕ, ◌+◌, ◌-◌, ◌≤◌, ◌<◌, ◌≡◌, refl, Option, some, List, [], ◌∷◌, ◌++◌, arith, length, take, drop,
  Str, min, length-append, length-take, length-drop,
}
use pfnc.Prelude.Words.{isize_bound}
use pfnc.Editable.{
  EditableText, IsValid, insert_char, backspace, move_left, move_right, move_home, move_end,
}
use pfnc.Editable.Bytes.{insert_char_lem, backspace_lem}

pub data TextKey : Type 0 where
  char : ℕ → TextKey
  backspace_key left right home end_key : TextKey

unfoldable pub press : TextKey → EditableText → Option EditableText
press (char c) e = insert_char c e
press backspace_key e = backspace e
press left e = some (move_left e)
press right e = some (move_right e)
press home e = some (move_home e)
press end_key e = some (move_end e)

unfoldable pub press_all : List TextKey → EditableText → Option EditableText
press_all [] e = some e
press_all (k ∷ ks) e = Option.bind (press k e) (press_all ks)

-- A text that is valid and at most one character longer than `e`.
pub record Grown (e e' : EditableText) : Type 0 where
  pub grown_valid : IsValid e'
  pub grown_by_one : length e'.value ≤ length e.value + 1

grown :
    {e e' : EditableText}
    → e'.cursor ≤ length e'.value
    → length e'.value ≤ length e.value + 1
    → length e.value + 1 < isize_bound
    → Grown e e'
grown c l h = record { grown_valid = record { in_text = c; held = omega arith }; grown_by_one = l }

length-inserted :
    (c n : ℕ) (s : Str) → n ≤ length s → length (take n s ++ (c ∷ drop n s)) ≡ length s + 1
length-inserted c n s h = rw (length-append, length-take, length-drop) (omega arith)

length-removed :
    (n : ℕ) (s : Str) → n ≤ length s → length (take (n - 1) s ++ drop n s) ≡ length s - min n 1
length-removed n s h = rw (length-append, length-take, length-drop) (omega arith)

right-Grown :
    (e : EditableText) → IsValid e → length e.value + 1 < isize_bound → Grown e (move_right e)
unfolding move_right
right-Grown e v h = grown (ground arith) (ground arith) h

pub press-Grown :
    (k : TextKey) (e : EditableText)
    → IsValid e
    → length e.value + 1 < isize_bound
    → (e' : EditableText) × (press k e ≡ some e') × Grown e e'
unfolding press move_left move_home move_end
press-Grown (char c) e v h =
    let l = length-inserted c e.cursor e.value v.in_text in
    (_, insert_char_lem c e v, grown (omega arith) (omega arith) h)
press-Grown backspace_key e v h =
    let l = length-removed e.cursor e.value v.in_text in
    (_, backspace_lem e, grown (omega arith) (omega arith) h)
press-Grown left e v h = (_, refl, grown (omega arith) (omega arith) h)
press-Grown right e v h = (_, refl, right-Grown e v h)
press-Grown home e v h = (_, refl, grown (omega arith) (omega arith) h)
press-Grown end_key e v h = (_, refl, grown (omega arith) (omega arith) h)
