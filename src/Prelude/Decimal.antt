-- ===== src/Prelude/Decimal.antt =====
-- Decimal numerals: `to_string` and `parse` of an unsigned integer.
use Prim.Native.Nat.{ℕ, zero, suc, ◌+◌, ◌*◌, ◌-◌, ◌/◌, ◌%◌, ◌^◌, ◌<◌, ◌≤◌}
use mathlib.Core.Path.{◌≡◌, refl, ap}
use mathlib.Core.Bool.{Bool, true, false, ◌&&◌}
use mathlib.Core.List.{[], ◌∷◌, ◌++◌}
use mathlib.Core.Option
use mathlib.Core.Option.{Option, none, some}
use native.Mathlib.Omega.{arith}
use pfnc.Prelude.Tests.{ltb, leb, ◌==◌, if◌then◌else◌, Bool-cases, ltb→lt}
use mathlib.Core.Logic.{inl, inr}
use pfnc.Prelude.Text.{Str}

abbrev pub is_digit : ℕ → Bool
is_digit c = leb 48 c && leb c 57

-- The digits of a number below 10 ^ fuel.
unfoldable pub to_digits : ℕ → ℕ → Str
to_digits zero n = []
to_digits (suc fuel) n =
    let rest = to_digits fuel (n / 10) in
    if ltb n 10 then (48 + n) ∷ [] else rest ++ ((48 + n % 10) ∷ [])

-- One more digit, unless it is none or the value would exceed `top`.
abbrev pub push_digit : ℕ → ℕ → ℕ → Option ℕ
push_digit top value c =
    if is_digit c
    then (let next = 10 * value + (c - 48) in if leb next top then some next else none)
    else none

unfoldable pub parse_onto : ℕ → ℕ → Str → Option ℕ
parse_onto top value [] = some value
parse_onto top value (c ∷ cs) = Option.bind (push_digit top value c) λ next. parse_onto top next cs

-- `parse`, of digits behind an optional `+`.
abbrev pub parse_digits : ℕ → Str → Option ℕ
unfolding parse_onto
parse_digits top [] = none
parse_digits top (c ∷ cs) = parse_onto top 0 (c ∷ cs)

unfoldable pub parse_unsigned : ℕ → Str → Option ℕ
unfolding parse_digits
parse_unsigned top [] = none
parse_unsigned top (c ∷ cs) =
    let signed = parse_digits top cs in
    let plain = parse_digits top (c ∷ cs) in if c == 43 then signed else plain

parse_onto-append :
    (top value : ℕ) (xs ys : Str)
    → parse_onto top value (xs ++ ys)
      ≡ Option.bind (parse_onto top value xs) λ v. parse_onto top v ys
unfolding parse_onto Option.bind
parse_onto-append top value [] ys = refl
parse_onto-append top value (x ∷ xs) ys =
    onward (push_digit top value x) (λ next. parse_onto-append top next xs ys)
  where
    onward :
        (o : Option ℕ)
        → ((next : ℕ)
            → parse_onto top next (xs ++ ys)
              ≡ Option.bind (parse_onto top next xs) λ v. parse_onto top v ys)
        → Option.bind o (λ next. parse_onto top next (xs ++ ys))
          ≡ Option.bind (Option.bind o λ next. parse_onto top next xs) λ v. parse_onto top v ys
    onward none rest = refl
    onward (some next) rest = rest next

push_digit_lem :
    (top value d : ℕ)
    → d < 10
    → 10 * value + d ≤ top
    → push_digit top value (48 + d) ≡ some (10 * value + d)
push_digit_lem top value d small fits = ground arith

parse_onto-to_digits :
    (top fuel n : ℕ) → n < 10 ^ fuel → n ≤ top → parse_onto top 0 (to_digits fuel n) ≡ some n
unfolding parse_onto to_digits Option.bind
parse_onto-to_digits top zero n h fits = ap some (omega arith)
parse_onto-to_digits top (suc fuel) n h fits = elim (Bool-cases (ltb n 10)) [
  | inl one ↦
      let small : n < 10 = ltb→lt n 10 one in
      rw (one, push_digit_lem top 0 n small (omega arith)) (ap some (omega arith))
  | inr more ↦
      rw
        (
          more,
          parse_onto-append,
          parse_onto-to_digits top fuel (n / 10) (omega arith) (omega arith),
          push_digit_lem top (n / 10) (n % 10) (omega arith) (omega arith),
        )
        (ap some (omega arith))
]

pub first_digit :
    (fuel n : ℕ)
    → n < 10 ^ suc fuel
    → (c : ℕ) × (cs : Str) × (to_digits (suc fuel) n ≡ c ∷ cs) × (48 ≤ c)
unfolding to_digits
first_digit zero n h =
    let one : ltb n 10 ≡ true = ground arith in (48 + n, [], rw one refl, omega arith)
first_digit (suc fuel) n h = elim (Bool-cases (ltb n 10)) [
  | inl one ↦ (48 + n, [], rw one refl, omega arith)
  | inr more ↦
      let (c, cs, e, digit) = first_digit fuel (n / 10) (omega arith) in
      (
        c,
        cs ++ ((48 + n % 10) ∷ []),
        rw (more, to_digits) (ap (λ s. s ++ ((48 + n % 10) ∷ [])) e),
        digit,
      )
]

-- A number that is written out is read back, from the 10 ^ fuel numbers that the fuel is enough for.
pub parse_unsigned-to_digits :
    (top fuel n : ℕ)
    → n < 10 ^ suc fuel
    → n ≤ top
    → parse_unsigned top (to_digits (suc fuel) n) ≡ some n
unfolding parse_unsigned
parse_unsigned-to_digits top fuel n h fits =
    let (c, cs, e, digit) = first_digit fuel n h in
    let plain : (c == 43) ≡ false = ground arith in
    rw e (rw plain (rw e at (parse_onto-to_digits top (suc fuel) n h fits)))
