-- ===== src/Sftp/Hex.antt =====
-- crates/agent-linux/src/main.rs, `to_hex`, and crates/vfs-sftp/src/deploy.rs, `from_hex`. The text is the list
-- of its UTF-8 bytes, since `from_hex` slices by bytes; a slice that cuts a character panics.
use mathlib.Core.Option
use pfnc.Prelude.{
  ℕ, ◌+◌, ◌-◌, ◌*◌, ◌/◌, ◌%◌, ◌<◌, ◌≡◌, refl, ap, Bool, true, false, ◌&&◌, ◌||◌, Option, none, some,
  List, [], ◌∷◌, length, ltb, leb, ◌==◌, if◌then◌else◌, arith,
}

-- `{b:02x}`
abbrev pub hex_digit : ℕ → ℕ
hex_digit n = if ltb n 10 then 48 + n else 87 + n

unfoldable pub to_hex : List ℕ → List ℕ
to_hex [] = []
to_hex (b ∷ bytes) = hex_digit (b / 16) ∷ hex_digit (b % 16) ∷ to_hex bytes

pub data HexError : Type 0 where
  odd_length : ℕ → HexError
  invalid_digit : HexError

pub data Decoded : Type 0 where
  decoded : List ℕ → Decoded
  refused : HexError → Decoded

-- `char::to_digit(16)`
abbrev pub digit_value : ℕ → Option ℕ
digit_value c =
    if leb 48 c && ltb c 58
    then some (c - 48)
    else if leb 97 c && ltb c 103
    then some (c - 87)
    else if leb 65 c && ltb c 71
    then some (c - 55)
    else none

abbrev two_digits : Option ℕ → Option ℕ → Option ℕ
two_digits (some h) (some l) = some (16 * h + l)
two_digits _ _ = none

-- `u8::from_str_radix` of two bytes: a sign `+` (43) may come first.
abbrev pub parse_pair : ℕ → ℕ → Option ℕ
parse_pair a b = if a == 43 then digit_value b else two_digits (digit_value a) (digit_value b)

-- A byte inside a character.
abbrev pub is_continuation : ℕ → Bool
is_continuation b = leb 128 b && ltb b 192

abbrev pub starts_inside : List ℕ → Bool
starts_inside [] = false
starts_inside (b ∷ _) = is_continuation b

abbrev pub add_decoded : ℕ → Decoded → Decoded
add_decoded b (decoded bytes) = decoded (b ∷ bytes)
add_decoded b (refused e) = refused e

-- `collect` stops at the first error; `none` is a panic.
abbrev pub after_pair : Option ℕ → Option Decoded → Option Decoded
after_pair none rest = some (refused invalid_digit)
after_pair (some b) rest = Option.map (add_decoded b) rest

unfoldable pub decode_pairs : List ℕ → Option Decoded
decode_pairs [] = some (decoded [])
decode_pairs (a ∷ []) = some (decoded [])
decode_pairs (a ∷ b ∷ s) =
    let rest = decode_pairs s in
    if is_continuation a || starts_inside s then none else after_pair (parse_pair a b) rest

unfoldable pub from_hex : List ℕ → Option Decoded
unfolding decode_pairs
from_hex s = if length s % 2 == 0 then decode_pairs s else some (refused (odd_length (length s)))

-- All are bytes.
abbrev pub AreBytes : List ℕ → Type 0
AreBytes [] = Unit
AreBytes (b ∷ bs) = (b < 256) × AreBytes bs

hex_digit_cases :
    (n : ℕ)
    → n < 16
    → (digit_value (hex_digit n) ≡ some n)
      × (is_continuation (hex_digit n) ≡ false)
      × ((hex_digit n == 43) ≡ false)
hex_digit_cases n h = ground arith

parse_pair-hex_digit :
    (b : ℕ) → b < 256 → parse_pair (hex_digit (b / 16)) (hex_digit (b % 16)) ≡ some b
parse_pair-hex_digit b h =
    let (high, _, no_sign) = hex_digit_cases (b / 16) (omega arith) in
    let (low, _, _) = hex_digit_cases (b % 16) (omega arith) in
    rw (no_sign, high, low) (ap some (omega arith))

starts_inside-to_hex : (bytes : List ℕ) → AreBytes bytes → starts_inside (to_hex bytes) ≡ false
unfolding to_hex
starts_inside-to_hex [] h = refl
starts_inside-to_hex (b ∷ bytes) h = (hex_digit_cases (b / 16) (omega (arith, h.0))).1

length-to_hex : (bytes : List ℕ) → length (to_hex bytes) ≡ 2 * length bytes
unfolding to_hex
length-to_hex [] = refl
length-to_hex (b ∷ bytes) = omega (arith, length-to_hex bytes)

decode_pairs-to_hex :
    (bytes : List ℕ) → AreBytes bytes → decode_pairs (to_hex bytes) ≡ some (decoded bytes)
unfolding decode_pairs to_hex
decode_pairs-to_hex [] h = refl
decode_pairs-to_hex (b ∷ bytes) (byte, all) =
    rw
      (
        (hex_digit_cases (b / 16) (omega arith)).1,
        starts_inside-to_hex bytes all,
        parse_pair-hex_digit b byte,
        decode_pairs-to_hex bytes all,
      )
      refl

-- What the agent prints of its certificate as hexadecimal digits, the client decodes to the same bytes,
-- without an error or a panic.
pub from_hex-to_hex :
    (bytes : List ℕ) → AreBytes bytes → from_hex (to_hex bytes) ≡ some (decoded bytes)
unfolding from_hex
from_hex-to_hex bytes h = rw (even) (decode_pairs-to_hex bytes h)
  where
    even : (length (to_hex bytes) % 2 == 0) ≡ true
    even = rw (length-to_hex bytes) (ground arith)
