-- ===== src/Editable/Tests.antt =====
-- Texts with characters of one, two and three bytes, as they are typed into a text field.
use mathlib.Core.Option
use pfnc.Prelude.{◌≡◌, refl, some, List, [], ◌∷◌, codes, arith}
use pfnc.Editable.{
  EditableText, IsValid, insert_char, backspace, byte_index, remove_bytes, insert_at_byte,
  move_left, move_home,
}
use pfnc.Editable.Bytes.{insert_char_lem}
use pfnc.Editable.Keys.{TextKey, char, backspace_key, left, home, press, press_all}

abbrev cafe : EditableText
cafe = record { value = codes "café€"; cursor = 4 }

cafe-IsValid : IsValid cafe
cafe-IsValid = record { in_text = omega arith; held = omega arith }

behind_accent : byte_index cafe 4 ≡ 5
unfolding byte_index
behind_accent = refl

removes_accent : backspace cafe ≡ some (record { value = codes "caf€"; cursor = 3 })
unfolding backspace remove_bytes byte_index Option.bind
removes_accent = refl

insert_char_lem_example :
    insert_char b'x' cafe ≡ some (record { value = codes "caféx€"; cursor = 5 })
insert_char_lem_example = insert_char_lem b'x' cafe cafe-IsValid

abbrev typed : List TextKey
typed = char 233 ∷ left ∷ backspace_key ∷ home ∷ char b'a' ∷ []

typed_run : press_all typed cafe ≡ some (record { value = codes "acafé€"; cursor = 1 })
unfolding press_all press insert_char backspace move_left move_home Option.bind insert_at_byte
    remove_bytes byte_index
typed_run = refl
