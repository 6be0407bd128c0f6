-- ===== src/Execute/Floats.antt =====
-- The operations on floating-point numbers in lib/fizzy/execute.cpp, on their bit patterns. What
-- rounds, and so depends on the rounding mode and on the processor's NaN, is a parameter.
mod Places
pub mod Order
mod Tests
use fizzy.Common.{
  ℕ, ◌+◌, ◌-◌, ◌*◌, ◌/◌, ◌%◌, ◌^◌, Bool, not, ◌&&◌, ◌||◌, ltb, leb, ◌==◌, if◌then◌else◌, bit_and,
  bit_or, bit_xor, Option, none, some,
}
use fizzy.Common.{ℤ, pos, negated, lt_int, pattern_of}

-- A binary format of IEEE 754: its bits, and those of the fraction.
pub record Format : Type 0 where
  pub width : ℕ
  pub fraction : ℕ

-- `float`
abbrev pub single : Format
single = record { width = 32; fraction = 23 }

-- `double`
abbrev pub double : Format
double = record { width = 64; fraction = 52 }

-- The arithmetic of the processor and of <cmath> at one format.
pub record Arithmetic : Type 0 where
  pub sum : ℕ → ℕ → ℕ
  pub difference : ℕ → ℕ → ℕ
  pub product : ℕ → ℕ → ℕ
  pub quotient : ℕ → ℕ → ℕ
  pub fmod : ℕ → ℕ → ℕ
  pub sqrt : ℕ → ℕ
  pub from_int : ℤ → ℕ

-- `F32AbsMask` and `F64AbsMask`
abbrev pub abs_mask : Format → ℕ
abs_mask f = 2 ^ (f.width - 1) - 1

-- `F32SignMask` and `F64SignMask`
abbrev pub sign_mask : Format → ℕ
sign_mask f = 2 ^ (f.width - 1)

abbrev pub bias : Format → ℕ
bias f = 2 ^ (f.width - f.fraction - 2) - 1

-- The pattern without its sign.
abbrev pub magnitude : Format → ℕ → ℕ
magnitude f value = value % 2 ^ (f.width - 1)

-- `std::signbit`
abbrev pub signbit : Format → ℕ → Bool
signbit f value = leb (sign_mask f) value

abbrev pub infinity : Format → ℕ
infinity f = 2 ^ (f.width - 1) - 2 ^ f.fraction

-- `std::isnan`
abbrev pub is_nan : Format → ℕ → Bool
is_nan f value = ltb (infinity f) (magnitude f value)

-- `quiet_NaN()`: the canonical NaN.
abbrev pub quiet_nan : Format → ℕ
quiet_nan f = infinity f + 2 ^ (f.fraction - 1)

abbrev pub one : Format → ℕ
one f = bias f * 2 ^ f.fraction

abbrev pub half : Format → ℕ
half f = (bias f - 1) * 2 ^ f.fraction

abbrev pub two : Format → ℕ
two f = (bias f + 1) * 2 ^ f.fraction

-- The place of a pattern that is no NaN among all: both zeros have the same.
unfoldable pub place : Format → ℕ → ℤ
place f value = if signbit f value then negated (magnitude f value) else pos (magnitude f value)

-- `a < b`
unfoldable pub float_less : Format → ℕ → ℕ → Bool
unfolding lt_int place
float_less f a b = not (is_nan f a || is_nan f b) && lt_int (place f a) (place f b)

-- `a == b`
unfoldable pub float_equal : Format → ℕ → ℕ → Bool
unfolding lt_int place
float_equal f a b =
    not (is_nan f a || is_nan f b)
    && (not (lt_int (place f a) (place f b)) && not (lt_int (place f b) (place f a)))

unfoldable pub fabs : Format → ℕ → ℕ
fabs f value = bit_and value (abs_mask f)

unfoldable pub fneg : Format → ℕ → ℕ
fneg f value = bit_xor value (sign_mask f)

unfoldable pub fcopysign : Format → ℕ → ℕ → ℕ
fcopysign f a b = bit_or (bit_and a (abs_mask f)) (bit_and b (sign_mask f))

-- The bits of the fraction that stand for less than one, where the magnitude is `one` or more.
abbrev pub bits_below_one : Format → ℕ → ℕ
bits_below_one f value = bias f + f.fraction - magnitude f value / 2 ^ f.fraction

-- `std::trunc`
unfoldable pub trunc_value : Format → ℕ → ℕ
trunc_value f value =
    if ltb (magnitude f value) (one f)
    then (if signbit f value then sign_mask f else 0)
    else value - value % 2 ^ bits_below_one f value

-- The integral number next to a number that is not integral, away from zero.
unfoldable pub away_from_zero : Format → ℕ → ℕ
unfolding trunc_value
away_from_zero f value =
    if ltb (magnitude f value) (one f)
    then (if signbit f value then sign_mask f + one f else one f)
    else trunc_value f value + 2 ^ bits_below_one f value

-- `std::ceil`; a zero is its own truncation.
unfoldable pub ceil_value : Format → ℕ → ℕ
unfolding trunc_value away_from_zero
ceil_value f value =
    if signbit f value || trunc_value f value == value
    then trunc_value f value
    else away_from_zero f value

-- `std::floor`
unfoldable pub floor_value : Format → ℕ → ℕ
unfolding trunc_value away_from_zero
floor_value f value =
    if not (signbit f value) || trunc_value f value == value
    then trunc_value f value
    else away_from_zero f value

unfoldable pub fceil : Format → ℕ → ℕ
unfolding ceil_value
fceil f value = if is_nan f value then quiet_nan f else ceil_value f value

unfoldable pub ffloor : Format → ℕ → ℕ
unfolding floor_value fcopysign
ffloor f value = if is_nan f value then quiet_nan f else fcopysign f (floor_value f value) value

unfoldable pub ftrunc : Format → ℕ → ℕ
unfolding trunc_value
ftrunc f value = if is_nan f value then quiet_nan f else trunc_value f value

-- `is_even` of an integral number.
unfoldable pub is_even : Format → Arithmetic → ℕ → Bool
unfolding float_equal
is_even f a i = float_equal f (a.fmod i (two f)) 0

unfoldable pub fnearest : Format → Arithmetic → ℕ → ℕ
unfolding trunc_value float_less float_equal fabs fcopysign is_even
fnearest f a value =
    let t = trunc_value f value in
    let diff = fabs f (a.difference value t) in
    if is_nan f value
    then quiet_nan f
    else (if float_less f (half f) diff || (float_equal f diff (half f) && not (is_even f a t))
        then a.sum t (fcopysign f (one f) value)
        else t)

unfoldable pub fmin : Format → ℕ → ℕ → ℕ
unfolding float_equal float_less
fmin f a b =
    if is_nan f a || is_nan f b
    then quiet_nan f
    else (if float_equal f a 0 && float_equal f b 0 && (signbit f a || signbit f b)
        then sign_mask f
        else (if float_less f b a then b else a))

unfoldable pub fmax : Format → ℕ → ℕ → ℕ
unfolding float_equal float_less
fmax f a b =
    if is_nan f a || is_nan f b
    then quiet_nan f
    else (if float_equal f a 0 && float_equal f b 0 && (not (signbit f a) || not (signbit f b))
        then 0
        else (if float_less f a b then b else a))

-- `trunc_boundaries`: the patterns of the two bounds.
pub record Boundaries : Type 0 where
  pub lower : ℕ
  pub upper : ℕ

-- The integral part of the magnitude of a number.
unfoldable pub integral_part : Format → ℕ → ℕ
integral_part f value =
    let exponent = magnitude f value / 2 ^ f.fraction in
    let significand = 2 ^ f.fraction + value % 2 ^ f.fraction in
    if ltb exponent (bias f)
    then 0
    else (if leb exponent (bias f + f.fraction)
        then significand / 2 ^ (bias f + f.fraction - exponent)
        else significand * 2 ^ (exponent - (bias f + f.fraction)))

-- The number without its fraction, as `static_cast` to an integer type takes it.
unfoldable pub to_int : Format → ℕ → ℤ
unfolding integral_part
to_int f value =
    if signbit f value then negated (integral_part f value) else pos (integral_part f value)

-- What `trunc` computes, to an integer type of `w` bits; `none` is a trap.
unfoldable pub trunc_to : Format → Boundaries → ℕ → ℕ → Option ℕ
unfolding float_less to_int pattern_of
trunc_to f b w input =
    if float_less f b.lower input && float_less f input b.upper
    then some (pattern_of w (to_int f input))
    else none
