-- ===== src/Common/Ints.antt =====
-- The integers that a word stands for in two's complement, with the division of C++.
use Prim.Native.Nat.{ℕ, zero, suc, ◌-◌, ◌/◌, ◌%◌, ◌^◌}
use mathlib.Core.Bool.{Bool, true, false}
use fizzy.Common.Tests.{ltb, if◌then◌else◌}

-- `negsuc n` is the number - (n + 1).
pub data ℤ : Type 0 where
  pos negsuc : ℕ → ℤ

-- The number that a pattern of `w` bits stands for.
unfoldable pub signed : ℕ → ℕ → ℤ
signed w v = if ltb v (2 ^ (w - 1)) then pos v else negsuc (2 ^ w - 1 - v)

-- The pattern of `w` bits of a number: `static_cast` to the unsigned type.
unfoldable pub pattern_of : ℕ → ℤ → ℕ
pattern_of w (pos n) = n % 2 ^ w
pattern_of w (negsuc n) = 2 ^ w - 1 - n % 2 ^ w

-- The difference of two numbers.
abbrev pub minus : ℕ → ℕ → ℤ
minus a b = if ltb a b then negsuc (b - a - 1) else pos (a - b)

unfoldable pub lt_int : ℤ → ℤ → Bool
lt_int (pos a) (pos b) = ltb a b
lt_int (pos a) (negsuc b) = false
lt_int (negsuc a) (pos b) = true
lt_int (negsuc a) (negsuc b) = ltb b a

abbrev pub negated : ℕ → ℤ
negated zero = pos 0
negated (suc n) = negsuc n

-- `/` of C++ truncates toward zero.
unfoldable pub quotient : ℤ → ℤ → ℤ
quotient (pos a) (pos b) = pos (a / b)
quotient (pos a) (negsuc b) = negated (a / suc b)
quotient (negsuc a) (pos b) = negated (suc a / b)
quotient (negsuc a) (negsuc b) = pos (suc a / suc b)

-- `%` of C++ has the sign of the dividend.
unfoldable pub remainder : ℤ → ℤ → ℤ
remainder (pos a) (pos b) = pos (a % b)
remainder (pos a) (negsuc b) = pos (a % suc b)
remainder (negsuc a) (pos b) = negated (suc a % b)
remainder (negsuc a) (negsuc b) = negated (suc a % suc b)
