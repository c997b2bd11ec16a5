-- ===== src/Prelude/Words.antt =====
-- Machine words of a 64-bit target: `usize` and `u64` as numbers below 2 ^ 64, `isize` as an
-- integer, each with the wrap-around of a release build.
use Prim.Native.Nat.{ℕ, ◌+◌, ◌-◌, ◌%◌, ◌^◌}
use pfnc.Prelude.Tests.{ltb, if◌then◌else◌}
use pfnc.Prelude.Int.{ℤ, pos, negsuc, ◌+ℤ◌}

abbrev pub word_mod : ℕ
word_mod = 2 ^ 64

-- The bound of `isize`, and of the length of a `Vec` or a `String`.
abbrev pub isize_bound : ℕ
isize_bound = 2 ^ 63

abbrev pub add_word : ℕ → ℕ → ℕ
add_word a b = (a + b) % word_mod

abbrev pub sub_word : ℕ → ℕ → ℕ
sub_word a b = (a + word_mod - b) % word_mod

-- Reduction to the range of `isize`: two's complement.
abbrev pub wrap_isize : ℤ → ℤ
wrap_isize (pos n) =
    let m = n % word_mod in if ltb m isize_bound then pos m else negsuc (word_mod - 1 - m)
wrap_isize (negsuc n) =
    let m = n % word_mod in if ltb m isize_bound then negsuc m else pos (word_mod - 1 - m)

-- `a as isize` for an unsigned `a`.
abbrev pub as_isize : ℕ → ℤ
as_isize a = wrap_isize (pos a)

abbrev pub add_isize : ℤ → ℤ → ℤ
add_isize a b = wrap_isize (a +ℤ b)

-- `z as usize` for a signed `z`.
abbrev pub as_usize : ℤ → ℕ
as_usize (pos n) = n % word_mod
as_usize (negsuc n) = word_mod - 1 - n % word_mod
