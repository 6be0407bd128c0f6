-- ===== src/Execute/Numeric/Words.antt =====
-- The arithmetic on integers in the switch of lib/fizzy/execute.cpp.
use fizzy.Common.{List, [], ◌∷◌, bit_and, bit_or, bit_xor}
use fizzy.Instr
use fizzy.Execute.Integers.{Builtins, clz, ctz, popcnt, add, sub, mul, div_s, div_u, rem_s, rem_u}
use fizzy.Execute.Integers.{shift_left, shift_right, shift_right_int, rotl, rotr}
use fizzy.Execute.Operators.{unary_op, binary_op, division_op}
use fizzy.Execute.Numeric.Compare.{Row}

unfoldable pub integer_i32 : Builtins → List Row
unfolding unary_op binary_op division_op clz ctz popcnt add sub mul div_s div_u rem_s rem_u
    shift_left shift_right shift_right_int rotl rotr
integer_i32 b =
    (Instr.i32_clz, unary_op 32 (clz b 32))
    ∷ (Instr.i32_ctz, unary_op 32 (ctz b 32))
    ∷ (Instr.i32_popcnt, unary_op 32 (popcnt b 32))
    ∷ (Instr.i32_add, binary_op 32 (add 32))
    ∷ (Instr.i32_sub, binary_op 32 (sub 32))
    ∷ (Instr.i32_mul, binary_op 32 (mul 32))
    ∷ (Instr.i32_div_s, division_op 32 (div_s 32))
    ∷ (Instr.i32_div_u, division_op 32 div_u)
    ∷ (Instr.i32_rem_s, division_op 32 (rem_s 32))
    ∷ (Instr.i32_rem_u, division_op 32 rem_u)
    ∷ (Instr.i32_and, binary_op 32 bit_and)
    ∷ (Instr.i32_or, binary_op 32 bit_or)
    ∷ (Instr.i32_xor, binary_op 32 bit_xor)
    ∷ (Instr.i32_shl, binary_op 32 (shift_left 32))
    ∷ (Instr.i32_shr_s, binary_op 32 (shift_right_int 32))
    ∷ (Instr.i32_shr_u, binary_op 32 (shift_right 32))
    ∷ (Instr.i32_rotl, binary_op 32 (rotl 32))
    ∷ (Instr.i32_rotr, binary_op 32 (rotr 32))
    ∷ []

unfoldable pub integer_i64 : Builtins → List Row
unfolding unary_op binary_op division_op clz ctz popcnt add sub mul div_s div_u rem_s rem_u
    shift_left shift_right shift_right_int rotl rotr
integer_i64 b =
    (Instr.i64_clz, unary_op 64 (clz b 64))
    ∷ (Instr.i64_ctz, unary_op 64 (ctz b 64))
    ∷ (Instr.i64_popcnt, unary_op 64 (popcnt b 64))
    ∷ (Instr.i64_add, binary_op 64 (add 64))
    ∷ (Instr.i64_sub, binary_op 64 (sub 64))
    ∷ (Instr.i64_mul, binary_op 64 (mul 64))
    ∷ (Instr.i64_div_s, division_op 64 (div_s 64))
    ∷ (Instr.i64_div_u, division_op 64 div_u)
    ∷ (Instr.i64_rem_s, division_op 64 (rem_s 64))
    ∷ (Instr.i64_rem_u, division_op 64 rem_u)
    ∷ (Instr.i64_and, binary_op 64 bit_and)
    ∷ (Instr.i64_or, binary_op 64 bit_or)
    ∷ (Instr.i64_xor, binary_op 64 bit_xor)
    ∷ (Instr.i64_shl, binary_op 64 (shift_left 64))
    ∷ (Instr.i64_shr_s, binary_op 64 (shift_right_int 64))
    ∷ (Instr.i64_shr_u, binary_op 64 (shift_right 64))
    ∷ (Instr.i64_rotl, binary_op 64 (rotl 64))
    ∷ (Instr.i64_rotr, binary_op 64 (rotr 64))
    ∷ []
