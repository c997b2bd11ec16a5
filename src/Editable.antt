-- ===== src/Editable.antt =====
-- crates/core/src/mode.rs, `EditableText`: one line of text with a cursor that counts characters, while
-- `String` is changed at byte positions. `none` is a panic of `String`, at a position that is no
-- boundary between characters.
mod Bytes
pub mod Keys
mod Tests
use mathlib.Core.Option
use pfnc.Prelude.{
  ℕ, zero, suc, ◌+◌, ◌-◌, ◌≤◌, ◌<◌, Bool, Option, none, some, List, [], ◌∷◌, ◌++◌, ltb, leb,
  if◌then◌else◌, length, get_elem?, Str,
}
use pfnc.Prelude.Words.{isize_bound, add_word}

-- `char::len_utf8`, and `String::len`.
abbrev pub utf8_len : ℕ → ℕ
utf8_len c = if ltb c 0x80 then 1 else if ltb c 0x800 then 2 else if ltb c 0x10000 then 3 else 4

abbrev pub byte_len : Str → ℕ
byte_len [] = 0
byte_len (c ∷ s) = utf8_len c + byte_len s

-- `split_at` at a byte position.
split_at_byte : Str → ℕ → Option (Str × Str)
split_at_byte s zero = some ([], s)
split_at_byte [] (suc n) = none
split_at_byte (c ∷ s) (suc n) =
    let rest = split_at_byte s (suc n - utf8_len c) in
    if leb (utf8_len c) (suc n) then Option.map (λ (a, b). (c ∷ a, b)) rest else none

-- `String::insert` and `String::replace_range(start..end, "")`.
unfoldable pub insert_at_byte : Str → ℕ → ℕ → Option Str
unfolding split_at_byte
insert_at_byte s idx c = Option.map (λ (a, b). a ++ (c ∷ b)) (split_at_byte s idx)

unfoldable pub remove_bytes : Str → ℕ → ℕ → Option Str
unfolding split_at_byte
remove_bytes s start stop =
    Option.bind (split_at_byte s stop)
      λ (a, b). Option.map (λ (kept, _). kept ++ b) (split_at_byte a start)

-- The offsets of `char_indices`.
char_offsets : ℕ → Str → List ℕ
char_offsets at [] = []
char_offsets at (c ∷ s) = at ∷ char_offsets (at + utf8_len c) s

pub record EditableText : Type 0 where
  pub value : Str
  pub cursor : ℕ

unfoldable pub new : Str → EditableText
new value = record { value = value; cursor = length value }

unfoldable pub byte_index : EditableText → ℕ → ℕ
unfolding char_offsets
byte_index e char_idx =
    Option.get_or (get_elem? (char_offsets 0 e.value) char_idx) (byte_len e.value)

unfoldable pub insert_char : ℕ → EditableText → Option EditableText
insert_char c e =
    Option.map (λ v. record { value = v; cursor = add_word e.cursor 1 })
      (insert_at_byte e.value (byte_index e e.cursor) c)

unfoldable pub backspace : EditableText → Option EditableText
backspace e =
    if leb e.cursor 0
    then some e
    else Option.map (λ v. record { value = v; cursor = e.cursor - 1 })
        (remove_bytes e.value (byte_index e (e.cursor - 1)) (byte_index e e.cursor))

unfoldable pub move_left : EditableText → EditableText
move_left e = record e { cursor = e.cursor - 1 }

unfoldable pub move_right : EditableText → EditableText
move_right e =
    if ltb e.cursor (length e.value) then record e { cursor = add_word e.cursor 1 } else e

unfoldable pub move_home : EditableText → EditableText
move_home e = record e { cursor = 0 }

unfoldable pub move_end : EditableText → EditableText
move_end e = record e { cursor = length e.value }

-- The cursor is at most behind the last character; a `String` is shorter than `isize::MAX`.
pub record IsValid (e : EditableText) : Type 0 where
  pub in_text : e.cursor ≤ length e.value
  pub held : length e.value < isize_bound
