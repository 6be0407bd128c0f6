-- ===== src/Instr/Integer.antt =====
-- The enumerators of `Instr` in lib/fizzy/types.hpp for the operations on integers.
use fizzy.Common.{ℕ}

abbrev pub i32_clz : ℕ
i32_clz = 0x67

abbrev pub i32_ctz : ℕ
i32_ctz = 0x68

abbrev pub i32_popcnt : ℕ
i32_popcnt = 0x69

abbrev pub i32_add : ℕ
i32_add = 0x6a

abbrev pub i32_sub : ℕ
i32_sub = 0x6b

abbrev pub i32_mul : ℕ
i32_mul = 0x6c

abbrev pub i32_div_s : ℕ
i32_div_s = 0x6d

abbrev pub i32_div_u : ℕ
i32_div_u = 0x6e

abbrev pub i32_rem_s : ℕ
i32_rem_s = 0x6f

abbrev pub i32_rem_u : ℕ
i32_rem_u = 0x70

abbrev pub i32_and : ℕ
i32_and = 0x71

abbrev pub i32_or : ℕ
i32_or = 0x72

abbrev pub i32_xor : ℕ
i32_xor = 0x73

abbrev pub i32_shl : ℕ
i32_shl = 0x74

abbrev pub i32_shr_s : ℕ
i32_shr_s = 0x75

abbrev pub i32_shr_u : ℕ
i32_shr_u = 0x76

abbrev pub i32_rotl : ℕ
i32_rotl = 0x77

abbrev pub i32_rotr : ℕ
i32_rotr = 0x78

abbrev pub i64_clz : ℕ
i64_clz = 0x79

abbrev pub i64_ctz : ℕ
i64_ctz = 0x7a

abbrev pub i64_popcnt : ℕ
i64_popcnt = 0x7b

abbrev pub i64_add : ℕ
i64_add = 0x7c

abbrev pub i64_sub : ℕ
i64_sub = 0x7d

abbrev pub i64_mul : ℕ
i64_mul = 0x7e

abbrev pub i64_div_s : ℕ
i64_div_s = 0x7f

abbrev pub i64_div_u : ℕ
i64_div_u = 0x80

abbrev pub i64_rem_s : ℕ
i64_rem_s = 0x81

abbrev pub i64_rem_u : ℕ
i64_rem_u = 0x82

abbrev pub i64_and : ℕ
i64_and = 0x83

abbrev pub i64_or : ℕ
i64_or = 0x84

abbrev pub i64_xor : ℕ
i64_xor = 0x85

abbrev pub i64_shl : ℕ
i64_shl = 0x86

abbrev pub i64_shr_s : ℕ
i64_shr_s = 0x87

abbrev pub i64_shr_u : ℕ
i64_shr_u = 0x88

abbrev pub i64_rotl : ℕ
i64_rotl = 0x89

abbrev pub i64_rotr : ℕ
i64_rotr = 0x8a
