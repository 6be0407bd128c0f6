-- ===== src/Execute/Operators.antt =====
-- The templates of lib/fizzy/execute.cpp that apply an operation to the top of the stack, and the
-- member `as` of lib/fizzy/value.hpp.
pub mod Takes
use fizzy.Common.{ℕ, ◌%◌, ◌^◌, Bool, true, false, Option, Run, ◌then◌, or_trap, ℤ, signed}
use fizzy.Stack.{OperandStack, top, set_top, pop}
use fizzy.Execute.Floats.{Format, Boundaries, trunc_to}

-- `Value::as` at a type of `w` bits.
abbrev pub value_as : ℕ → ℕ → ℕ
value_as w value = value % 2 ^ w

-- `uint32_t{b}`
abbrev pub bool_value : Bool → ℕ
bool_value b = elim b [ true ↦ 1 | false ↦ 0 ]

unfoldable pub unary_op : ℕ → (ℕ → ℕ) → OperandStack → Run OperandStack
unfolding top set_top
unary_op w op stack = top stack then λ value. set_top (op (value_as w value)) stack

unfoldable pub binary_op : ℕ → (ℕ → ℕ → ℕ) → OperandStack → Run OperandStack
unfolding pop top set_top
binary_op w op stack = pop stack then λ (val2, rest).
    top rest then λ val1. set_top (op (value_as w val1) (value_as w val2)) rest

unfoldable pub comparison_op : ℕ → (ℕ → ℕ → Bool) → OperandStack → Run OperandStack
unfolding pop top set_top
comparison_op w op stack = pop stack then λ (val2, rest).
    top rest then λ val1. set_top (bool_value (op (value_as w val1) (value_as w val2))) rest

-- A division or a remainder: `none` of the operation is a trap.
unfoldable pub division_op : ℕ → (ℕ → ℕ → Option ℕ) → OperandStack → Run OperandStack
unfolding pop top set_top
division_op w op stack = pop stack then λ (rhs, rest). top rest then λ lhs.
    or_trap (op (value_as w lhs) (value_as w rhs)) then λ value. set_top value rest

unfoldable pub trunc : Format → Boundaries → ℕ → OperandStack → Run OperandStack
unfolding top set_top trunc_to
trunc f b w stack = top stack then λ value.
    or_trap (trunc_to f b w (value_as f.width value)) then λ result. set_top result stack

-- `convert` from an unsigned or from a signed type of `w` bits.
unfoldable pub convert : ℕ → (ℤ → ℕ) → Bool → OperandStack → Run OperandStack
unfolding top set_top signed
convert w from_int is_signed stack = top stack then λ value.
    set_top
      (from_int
        (elim is_signed [ true ↦ signed w (value_as w value) | false ↦ ℤ.pos (value_as w value) ]))
      stack

-- `reinterpret`: the patterns stay.
unfoldable pub reinterpret : ℕ → OperandStack → Run OperandStack
unfolding top set_top
reinterpret w stack = top stack then λ value. set_top (value_as w value) stack
