-- ===== src/Instr/Float.antt =====
-- The enumerators of `Instr` in lib/fizzy/types.hpp for the operations on floating-point numbers.
use fizzy.Common.{ℕ}

abbrev pub f32_abs : ℕ
f32_abs = 0x8b

abbrev pub f32_neg : ℕ
f32_neg = 0x8c

abbrev pub f32_ceil : ℕ
f32_ceil = 0x8d

abbrev pub f32_floor : ℕ
f32_floor = 0x8e

abbrev pub f32_trunc : ℕ
f32_trunc = 0x8f

abbrev pub f32_nearest : ℕ
f32_nearest = 0x90

abbrev pub f32_sqrt : ℕ
f32_sqrt = 0x91

abbrev pub f32_add : ℕ
f32_add = 0x92

abbrev pub f32_sub : ℕ
f32_sub = 0x93

abbrev pub f32_mul : ℕ
f32_mul = 0x94

abbrev pub f32_div : ℕ
f32_div = 0x95

abbrev pub f32_min : ℕ
f32_min = 0x96

abbrev pub f32_max : ℕ
f32_max = 0x97

abbrev pub f32_copysign : ℕ
f32_copysign = 0x98

abbrev pub f64_abs : ℕ
f64_abs = 0x99

abbrev pub f64_neg : ℕ
f64_neg = 0x9a

abbrev pub f64_ceil : ℕ
f64_ceil = 0x9b

abbrev pub f64_floor : ℕ
f64_floor = 0x9c

abbrev pub f64_trunc : ℕ
f64_trunc = 0x9d

abbrev pub f64_nearest : ℕ
f64_nearest = 0x9e

abbrev pub f64_sqrt : ℕ
f64_sqrt = 0x9f

abbrev pub f64_add : ℕ
f64_add = 0xa0

abbrev pub f64_sub : ℕ
f64_sub = 0xa1

abbrev pub f64_mul : ℕ
f64_mul = 0xa2

abbrev pub f64_div : ℕ
f64_div = 0xa3

abbrev pub f64_min : ℕ
f64_min = 0xa4

abbrev pub f64_max : ℕ
f64_max = 0xa5

abbrev pub f64_copysign : ℕ
f64_copysign = 0xa6
