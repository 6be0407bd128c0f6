-- ===== src/Execute/Numeric/Conversions.antt =====
-- The conversions in the switch of lib/fizzy/execute.cpp, with the boundaries of
-- lib/fizzy/trunc_boundaries.hpp as patterns.
use fizzy.Common.{ℕ, List, [], ◌∷◌, true, false}
use fizzy.Instr
use fizzy.Execute.Integers.{extend_signed}
use fizzy.Execute.Floats.{single, double, Arithmetic, Boundaries}
use fizzy.Execute.Operators.{unary_op, trunc, convert, reinterpret}
use fizzy.Execute.Numeric.Compare.{Row}

abbrev pub single_int32 : Boundaries
single_int32 = record { lower = 0xcf000001; upper = 0x4f000000 }

abbrev pub single_uint32 : Boundaries
single_uint32 = record { lower = 0xbf800000; upper = 0x4f800000 }

abbrev pub single_int64 : Boundaries
single_int64 = record { lower = 0xdf000001; upper = 0x5f000000 }

abbrev pub single_uint64 : Boundaries
single_uint64 = record { lower = 0xbf800000; upper = 0x5f800000 }

abbrev pub double_int32 : Boundaries
double_int32 = record { lower = 0xc1e0000000200000; upper = 0x41e0000000000000 }

abbrev pub double_uint32 : Boundaries
double_uint32 = record { lower = 0xbff0000000000000; upper = 0x41f0000000000000 }

abbrev pub double_int64 : Boundaries
double_int64 = record { lower = 0xc3e0000000000001; upper = 0x43e0000000000000 }

abbrev pub double_uint64 : Boundaries
double_uint64 = record { lower = 0xbff0000000000000; upper = 0x43f0000000000000 }

unfoldable pub conversions : List Row
unfolding trunc reinterpret unary_op extend_signed
conversions =
    (Instr.i32_wrap_i64, reinterpret 32)
    ∷ (Instr.i32_trunc_f32_s, trunc single single_int32 32)
    ∷ (Instr.i32_trunc_f32_u, trunc single single_uint32 32)
    ∷ (Instr.i32_trunc_f64_s, trunc double double_int32 32)
    ∷ (Instr.i32_trunc_f64_u, trunc double double_uint32 32)
    ∷ (Instr.i64_extend_i32_s, unary_op 32 (extend_signed 32 64))
    ∷ (Instr.i64_extend_i32_u, reinterpret 32)
    ∷ (Instr.i64_trunc_f32_s, trunc single single_int64 64)
    ∷ (Instr.i64_trunc_f32_u, trunc single single_uint64 64)
    ∷ (Instr.i64_trunc_f64_s, trunc double double_int64 64)
    ∷ (Instr.i64_trunc_f64_u, trunc double double_uint64 64)
    ∷ []

unfoldable pub float_conversions : Arithmetic → Arithmetic → (ℕ → ℕ) → (ℕ → ℕ) → List Row
unfolding convert reinterpret unary_op
float_conversions a32 a64 demote promote =
    (Instr.f32_convert_i32_s, convert 32 a32.from_int true)
    ∷ (Instr.f32_convert_i32_u, convert 32 a32.from_int false)
    ∷ (Instr.f32_convert_i64_s, convert 64 a32.from_int true)
    ∷ (Instr.f32_convert_i64_u, convert 64 a32.from_int false)
    ∷ (Instr.f32_demote_f64, unary_op 64 demote)
    ∷ (Instr.f64_convert_i32_s, convert 32 a64.from_int true)
    ∷ (Instr.f64_convert_i32_u, convert 32 a64.from_int false)
    ∷ (Instr.f64_convert_i64_s, convert 64 a64.from_int true)
    ∷ (Instr.f64_convert_i64_u, convert 64 a64.from_int false)
    ∷ (Instr.f64_promote_f32, unary_op 32 promote)
    ∷ (Instr.i32_reinterpret_f32, reinterpret 32)
    ∷ (Instr.i64_reinterpret_f64, reinterpret 64)
    ∷ (Instr.f32_reinterpret_i32, reinterpret 32)
    ∷ (Instr.f64_reinterpret_i64, reinterpret 64)
    ∷ []
