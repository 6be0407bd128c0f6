-- ===== src/Instr/Convert.antt =====
-- The enumerators of `Instr` in lib/fizzy/types.hpp for the conversions.
use fizzy.Common.{ℕ}

abbrev pub i32_wrap_i64 : ℕ
i32_wrap_i64 = 0xa7

abbrev pub i32_trunc_f32_s : ℕ
i32_trunc_f32_s = 0xa8

abbrev pub i32_trunc_f32_u : ℕ
i32_trunc_f32_u = 0xa9

abbrev pub i32_trunc_f64_s : ℕ
i32_trunc_f64_s = 0xaa

abbrev pub i32_trunc_f64_u : ℕ
i32_trunc_f64_u = 0xab

abbrev pub i64_extend_i32_s : ℕ
i64_extend_i32_s = 0xac

abbrev pub i64_extend_i32_u : ℕ
i64_extend_i32_u = 0xad

abbrev pub i64_trunc_f32_s : ℕ
i64_trunc_f32_s = 0xae

abbrev pub i64_trunc_f32_u : ℕ
i64_trunc_f32_u = 0xaf

abbrev pub i64_trunc_f64_s : ℕ
i64_trunc_f64_s = 0xb0

abbrev pub i64_trunc_f64_u : ℕ
i64_trunc_f64_u = 0xb1

abbrev pub f32_convert_i32_s : ℕ
f32_convert_i32_s = 0xb2

abbrev pub f32_convert_i32_u : ℕ
f32_convert_i32_u = 0xb3

abbrev pub f32_convert_i64_s : ℕ
f32_convert_i64_s = 0xb4

abbrev pub f32_convert_i64_u : ℕ
f32_convert_i64_u = 0xb5

abbrev pub f32_demote_f64 : ℕ
f32_demote_f64 = 0xb6

abbrev pub f64_convert_i32_s : ℕ
f64_convert_i32_s = 0xb7

abbrev pub f64_convert_i32_u : ℕ
f64_convert_i32_u = 0xb8

abbrev pub f64_convert_i64_s : ℕ
f64_convert_i64_s = 0xb9

abbrev pub f64_convert_i64_u : ℕ
f64_convert_i64_u = 0xba

abbrev pub f64_promote_f32 : ℕ
f64_promote_f32 = 0xbb

abbrev pub i32_reinterpret_f32 : ℕ
i32_reinterpret_f32 = 0xbc

abbrev pub i64_reinterpret_f64 : ℕ
i64_reinterpret_f64 = 0xbd

abbrev pub f32_reinterpret_i32 : ℕ
f32_reinterpret_i32 = 0xbe

abbrev pub f64_reinterpret_i64 : ℕ
f64_reinterpret_i64 = 0xbf
