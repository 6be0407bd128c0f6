-- ===== src/Execute/Integers.antt =====
-- The operations on integers in lib/fizzy/execute.cpp. A word of `w` bits is a number below `2 ^ w`;
-- a signed operation reads it in two's complement. The operands of `add`, `sub` and the like are
-- words already.
pub mod Division
pub mod Extension
mod Tests
use fizzy.Common.{
  ℕ, zero, suc, ◌+◌, ◌-◌, ◌*◌, ◌/◌, ◌%◌, ◌^◌, Bool, true, false, not, ◌&&◌, ◌||◌, ltb, ◌==◌,
  if◌then◌else◌, bit_and, bit_or, Option, none, some,
}
use fizzy.Common.{signed, pattern_of, lt_int, quotient, remainder}
use fizzy.Leb128.{shift_right_signed}

unfoldable pub add : ℕ → ℕ → ℕ → ℕ
add w a b = (a + b) % 2 ^ w

unfoldable pub sub : ℕ → ℕ → ℕ → ℕ
sub w a b = (a + 2 ^ w - b) % 2 ^ w

unfoldable pub mul : ℕ → ℕ → ℕ → ℕ
mul w a b = a * b % 2 ^ w

-- `rhs & (num_bits - 1)`
abbrev pub shift_count : ℕ → ℕ → ℕ
shift_count w rhs = bit_and rhs (w - 1)

unfoldable pub shift_left : ℕ → ℕ → ℕ → ℕ
shift_left w lhs rhs = lhs * 2 ^ shift_count w rhs % 2 ^ w

unfoldable pub shift_right : ℕ → ℕ → ℕ → ℕ
shift_right w lhs rhs = lhs / 2 ^ shift_count w rhs

-- `shift_right` at a signed type.
unfoldable pub shift_right_int : ℕ → ℕ → ℕ → ℕ
unfolding shift_right_signed
shift_right_int w lhs rhs = shift_right_signed w lhs (shift_count w rhs)

unfoldable pub rotl : ℕ → ℕ → ℕ → ℕ
rotl w lhs rhs =
    let k = shift_count w rhs in
    if k == 0 then lhs else bit_or (lhs * 2 ^ k % 2 ^ w) (lhs / 2 ^ (w - k))

unfoldable pub rotr : ℕ → ℕ → ℕ → ℕ
rotr w lhs rhs =
    let k = shift_count w rhs in
    if k == 0 then lhs else bit_or (lhs / 2 ^ k) (lhs * 2 ^ (w - k) % 2 ^ w)

-- What the compiler counts of a number of a width: `__builtin_clz` and `__builtin_ctz`, which are
-- undefined at 0, and `popcount`.
pub record Builtins : Type 0 where
  pub clz : ℕ → ℕ → ℕ
  pub ctz : ℕ → ℕ → ℕ
  pub popcount : ℕ → ℕ → ℕ

-- `clz32` and `clz64`
unfoldable pub clz : Builtins → ℕ → ℕ → ℕ
clz b w value = if value == 0 then w else b.clz w value

-- `ctz32` and `ctz64`
unfoldable pub ctz : Builtins → ℕ → ℕ → ℕ
ctz b w value = if value == 0 then w else b.ctz w value

-- `popcnt32` and `popcnt64`
unfoldable pub popcnt : Builtins → ℕ → ℕ → ℕ
popcnt b w value = b.popcount w value

-- The two divisions that have no result: by zero, and of the least number by - 1.
abbrev pub overflows : ℕ → ℕ → ℕ → Bool
overflows w lhs rhs = lhs == 2 ^ (w - 1) && rhs == 2 ^ w - 1

-- `i32_div_s` and `i64_div_s`; `none` is a trap.
unfoldable pub div_s : ℕ → ℕ → ℕ → Option ℕ
unfolding signed pattern_of quotient
div_s w lhs rhs =
    if rhs == 0 || overflows w lhs rhs
    then none
    else some (pattern_of w (quotient (signed w lhs) (signed w rhs)))

unfoldable pub div_u : ℕ → ℕ → Option ℕ
div_u lhs rhs = if rhs == 0 then none else some (lhs / rhs)

unfoldable pub rem_s : ℕ → ℕ → ℕ → Option ℕ
unfolding signed pattern_of remainder
rem_s w lhs rhs =
    if rhs == 0
    then none
    else (if overflows w lhs rhs
        then some 0
        else some (pattern_of w (remainder (signed w lhs) (signed w rhs))))

unfoldable pub rem_u : ℕ → ℕ → Option ℕ
rem_u lhs rhs = if rhs == 0 then none else some (lhs % rhs)

-- `std::less` at a signed type.
unfoldable pub less_int : ℕ → ℕ → ℕ → Bool
unfolding signed lt_int
less_int w a b = lt_int (signed w a) (signed w b)

-- `static_cast<DstT>(SignedDstT{in})`: a number of `from` bits, by its sign, in `to` bits.
unfoldable pub extend_signed : ℕ → ℕ → ℕ → ℕ
unfolding signed pattern_of
extend_signed from to value = pattern_of to (signed from value)

-- A type of C++ that `extend` is used with: its bits, and whether `std::is_signed` holds.
pub record Scalar : Type 0 where
  pub bits : ℕ
  pub is_signed : Bool

-- `std::is_same_v` of two of these types.
abbrev pub is_same : Scalar → Scalar → Bool
is_same t u = t.bits == u.bits && elim t.is_signed [ true ↦ u.is_signed | false ↦ not u.is_signed ]

unfoldable pub extend : (dst src : Scalar) → ℕ → ℕ
unfolding extend_signed
extend dst src in_ =
    if is_same src dst
    then in_
    else (if src.is_signed then extend_signed src.bits dst.bits in_ else in_)
