-- ===== src/Execute/Numeric/Compare.antt =====
-- The comparisons in the switch of lib/fizzy/execute.cpp.
use fizzy.Common.{ℕ, List, [], ◌∷◌, ◌==◌, ltb, leb, not, ◌||◌, Bool, Run, ◌then◌}
use fizzy.Stack.{OperandStack, top, set_top}
use fizzy.Instr
use fizzy.Execute.Integers.{less_int}
use fizzy.Execute.Floats.{Format, single, double, float_less, float_equal}
use fizzy.Execute.Operators.{value_as, bool_value, comparison_op}

-- An opcode, and what its case does with the stack.
abbrev pub Row : Type 0
Row = ℕ × (OperandStack → Run OperandStack)

-- `uint32_t{value == 0}`
unfoldable pub eqz : ℕ → OperandStack → Run OperandStack
unfolding top set_top
eqz w stack = top stack then λ value. set_top (bool_value (value_as w value == 0)) stack

-- `a <= b`
unfoldable pub float_less_equal : Format → ℕ → ℕ → Bool
unfolding float_less float_equal
float_less_equal f a b = float_less f a b || float_equal f a b

unfoldable pub compare_i32 : List Row
unfolding eqz comparison_op less_int
compare_i32 =
    (Instr.i32_eqz, eqz 32)
    ∷ (Instr.i32_eq, comparison_op 32 (λ a b. a == b))
    ∷ (Instr.i32_ne, comparison_op 32 (λ a b. not (a == b)))
    ∷ (Instr.i32_lt_s, comparison_op 32 (less_int 32))
    ∷ (Instr.i32_lt_u, comparison_op 32 ltb)
    ∷ (Instr.i32_gt_s, comparison_op 32 (λ a b. less_int 32 b a))
    ∷ (Instr.i32_gt_u, comparison_op 32 (λ a b. ltb b a))
    ∷ (Instr.i32_le_s, comparison_op 32 (λ a b. not (less_int 32 b a)))
    ∷ (Instr.i32_le_u, comparison_op 32 leb)
    ∷ (Instr.i32_ge_s, comparison_op 32 (λ a b. not (less_int 32 a b)))
    ∷ (Instr.i32_ge_u, comparison_op 32 (λ a b. leb b a))
    ∷ []

unfoldable pub compare_i64 : List Row
unfolding eqz comparison_op less_int
compare_i64 =
    (Instr.i64_eqz, eqz 64)
    ∷ (Instr.i64_eq, comparison_op 64 (λ a b. a == b))
    ∷ (Instr.i64_ne, comparison_op 64 (λ a b. not (a == b)))
    ∷ (Instr.i64_lt_s, comparison_op 64 (less_int 64))
    ∷ (Instr.i64_lt_u, comparison_op 64 ltb)
    ∷ (Instr.i64_gt_s, comparison_op 64 (λ a b. less_int 64 b a))
    ∷ (Instr.i64_gt_u, comparison_op 64 (λ a b. ltb b a))
    ∷ (Instr.i64_le_s, comparison_op 64 (λ a b. not (less_int 64 b a)))
    ∷ (Instr.i64_le_u, comparison_op 64 leb)
    ∷ (Instr.i64_ge_s, comparison_op 64 (λ a b. not (less_int 64 a b)))
    ∷ (Instr.i64_ge_u, comparison_op 64 (λ a b. leb b a))
    ∷ []

unfoldable pub compare_f32 : List Row
unfolding comparison_op float_less float_equal float_less_equal
compare_f32 =
    (Instr.f32_eq, comparison_op 32 (float_equal single))
    ∷ (Instr.f32_ne, comparison_op 32 (λ a b. not (float_equal single a b)))
    ∷ (Instr.f32_lt, comparison_op 32 (float_less single))
    ∷ (Instr.f32_gt, comparison_op 32 (λ a b. float_less single b a))
    ∷ (Instr.f32_le, comparison_op 32 (float_less_equal single))
    ∷ (Instr.f32_ge, comparison_op 32 (λ a b. float_less_equal single b a))
    ∷ []

unfoldable pub compare_f64 : List Row
unfolding comparison_op float_less float_equal float_less_equal
compare_f64 =
    (Instr.f64_eq, comparison_op 64 (float_equal double))
    ∷ (Instr.f64_ne, comparison_op 64 (λ a b. not (float_equal double a b)))
    ∷ (Instr.f64_lt, comparison_op 64 (float_less double))
    ∷ (Instr.f64_gt, comparison_op 64 (λ a b. float_less double b a))
    ∷ (Instr.f64_le, comparison_op 64 (float_less_equal double))
    ∷ (Instr.f64_ge, comparison_op 64 (λ a b. float_less_equal double b a))
    ∷ []
