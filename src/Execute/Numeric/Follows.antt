-- ===== src/Execute/Numeric/Follows.antt =====
-- The numeric instructions of lib/fizzy/execute.cpp take as many operands as their rows in the table
-- of lib/fizzy/instructions.cpp have inputs.
use fizzy.Common.{ℕ, ◌≡◌, refl, List, [], ◌∷◌, length, All, Run}
use fizzy.Stack.{OperandStack}
use fizzy.Instructions.{instruction_type}
use fizzy.Types.{ValType}
use fizzy.Execute.Floats.{Arithmetic}
use fizzy.Execute.Operators.Takes.{
  TakesOne, TakesTwo, unary_op-Takes, binary_op-Takes, comparison_op-Takes, division_op-Takes,
  trunc-Takes, convert-Takes, reinterpret-Takes, eqz-Takes,
}
use fizzy.Common.{ltb, leb, ◌==◌, not, bit_and, bit_or, bit_xor, true, false}
use fizzy.Execute.Integers.{
  Builtins, less_int, clz, ctz, popcnt, add, sub, mul, div_s, div_u, rem_s, rem_u, shift_left,
  shift_right, shift_right_int, rotl, rotr, extend_signed,
}
use fizzy.Execute.Floats.{
  single, double, float_less, float_equal, fabs, fneg, fceil, ffloor, ftrunc, fnearest, fmin, fmax,
  fcopysign,
}
use fizzy.Execute.Numeric.Compare.{float_less_equal}
use fizzy.Execute.Numeric.Conversions.{
  single_int32, single_uint32, single_int64, single_uint64, double_int32, double_uint32,
  double_int64, double_uint64,
}
use fizzy.Execute.Numeric.Compare.{Row, compare_i32, compare_i64, compare_f32, compare_f64}
use fizzy.Execute.Numeric.Words.{integer_i32, integer_i64}
use fizzy.Execute.Numeric.Fractions.{float_f32, float_f64}
use fizzy.Execute.Numeric.Conversions.{conversions, float_conversions}

-- The handler takes an operand for each of the types.
abbrev pub TakesAll : List ValType → (OperandStack → Run OperandStack) → Type 0
TakesAll [] f = ⊥
TakesAll (t ∷ []) f = TakesOne f
TakesAll (t ∷ u ∷ []) f = TakesTwo f
TakesAll (t ∷ u ∷ v ∷ ts) f = ⊥

-- The handler of a row does what the table says.
abbrev pub Follows : Row → Type 0
Follows row =
    TakesAll (instruction_type row.0).inputs row.1 × (length (instruction_type row.0).outputs ≡ 1)

infixr 4 ◌▸◌
abbrev ◌▸◌ : {A : Type 0} {B : Type 0} → A → B → (A × (length (ValType.i32 ∷ []) ≡ 1)) × B
a ▸ b = ((a, refl), b)

pub compare_i32-Follow : All Follows compare_i32
unfolding compare_i32 instruction_type
compare_i32-Follow =
    eqz-Takes 32
    ▸ comparison_op-Takes 32 (λ a b. a == b)
    ▸ comparison_op-Takes 32 (λ a b. not (a == b))
    ▸ comparison_op-Takes 32 (less_int 32)
    ▸ comparison_op-Takes 32 ltb
    ▸ comparison_op-Takes 32 (λ a b. less_int 32 b a)
    ▸ comparison_op-Takes 32 (λ a b. ltb b a)
    ▸ comparison_op-Takes 32 (λ a b. not (less_int 32 b a))
    ▸ comparison_op-Takes 32 leb
    ▸ comparison_op-Takes 32 (λ a b. not (less_int 32 a b))
    ▸ comparison_op-Takes 32 (λ a b. leb b a)
    ▸ tt

pub compare_i64-Follow : All Follows compare_i64
unfolding compare_i64 instruction_type
compare_i64-Follow =
    eqz-Takes 64
    ▸ comparison_op-Takes 64 (λ a b. a == b)
    ▸ comparison_op-Takes 64 (λ a b. not (a == b))
    ▸ comparison_op-Takes 64 (less_int 64)
    ▸ comparison_op-Takes 64 ltb
    ▸ comparison_op-Takes 64 (λ a b. less_int 64 b a)
    ▸ comparison_op-Takes 64 (λ a b. ltb b a)
    ▸ comparison_op-Takes 64 (λ a b. not (less_int 64 b a))
    ▸ comparison_op-Takes 64 leb
    ▸ comparison_op-Takes 64 (λ a b. not (less_int 64 a b))
    ▸ comparison_op-Takes 64 (λ a b. leb b a)
    ▸ tt

pub compare_f32-Follow : All Follows compare_f32
unfolding compare_f32 instruction_type
compare_f32-Follow =
    comparison_op-Takes 32 (float_equal single)
    ▸ comparison_op-Takes 32 (λ a b. not (float_equal single a b))
    ▸ comparison_op-Takes 32 (float_less single)
    ▸ comparison_op-Takes 32 (λ a b. float_less single b a)
    ▸ comparison_op-Takes 32 (float_less_equal single)
    ▸ comparison_op-Takes 32 (λ a b. float_less_equal single b a)
    ▸ tt

pub compare_f64-Follow : All Follows compare_f64
unfolding compare_f64 instruction_type
compare_f64-Follow =
    comparison_op-Takes 64 (float_equal double)
    ▸ comparison_op-Takes 64 (λ a b. not (float_equal double a b))
    ▸ comparison_op-Takes 64 (float_less double)
    ▸ comparison_op-Takes 64 (λ a b. float_less double b a)
    ▸ comparison_op-Takes 64 (float_less_equal double)
    ▸ comparison_op-Takes 64 (λ a b. float_less_equal double b a)
    ▸ tt

pub integer_i32-Follow : (b : Builtins) → All Follows (integer_i32 b)
unfolding integer_i32 instruction_type
integer_i32-Follow b =
    unary_op-Takes 32 (clz b 32)
    ▸ unary_op-Takes 32 (ctz b 32)
    ▸ unary_op-Takes 32 (popcnt b 32)
    ▸ binary_op-Takes 32 (add 32)
    ▸ binary_op-Takes 32 (sub 32)
    ▸ binary_op-Takes 32 (mul 32)
    ▸ division_op-Takes 32 (div_s 32)
    ▸ division_op-Takes 32 div_u
    ▸ division_op-Takes 32 (rem_s 32)
    ▸ division_op-Takes 32 rem_u
    ▸ binary_op-Takes 32 bit_and
    ▸ binary_op-Takes 32 bit_or
    ▸ binary_op-Takes 32 bit_xor
    ▸ binary_op-Takes 32 (shift_left 32)
    ▸ binary_op-Takes 32 (shift_right_int 32)
    ▸ binary_op-Takes 32 (shift_right 32)
    ▸ binary_op-Takes 32 (rotl 32)
    ▸ binary_op-Takes 32 (rotr 32)
    ▸ tt

pub integer_i64-Follow : (b : Builtins) → All Follows (integer_i64 b)
unfolding integer_i64 instruction_type
integer_i64-Follow b =
    unary_op-Takes 64 (clz b 64)
    ▸ unary_op-Takes 64 (ctz b 64)
    ▸ unary_op-Takes 64 (popcnt b 64)
    ▸ binary_op-Takes 64 (add 64)
    ▸ binary_op-Takes 64 (sub 64)
    ▸ binary_op-Takes 64 (mul 64)
    ▸ division_op-Takes 64 (div_s 64)
    ▸ division_op-Takes 64 div_u
    ▸ division_op-Takes 64 (rem_s 64)
    ▸ division_op-Takes 64 rem_u
    ▸ binary_op-Takes 64 bit_and
    ▸ binary_op-Takes 64 bit_or
    ▸ binary_op-Takes 64 bit_xor
    ▸ binary_op-Takes 64 (shift_left 64)
    ▸ binary_op-Takes 64 (shift_right_int 64)
    ▸ binary_op-Takes 64 (shift_right 64)
    ▸ binary_op-Takes 64 (rotl 64)
    ▸ binary_op-Takes 64 (rotr 64)
    ▸ tt

pub float_f32-Follow : (a : Arithmetic) → All Follows (float_f32 a)
unfolding float_f32 instruction_type
float_f32-Follow a =
    unary_op-Takes 32 (fabs single)
    ▸ unary_op-Takes 32 (fneg single)
    ▸ unary_op-Takes 32 (fceil single)
    ▸ unary_op-Takes 32 (ffloor single)
    ▸ unary_op-Takes 32 (ftrunc single)
    ▸ unary_op-Takes 32 (fnearest single a)
    ▸ unary_op-Takes 32 a.sqrt
    ▸ binary_op-Takes 32 a.sum
    ▸ binary_op-Takes 32 a.difference
    ▸ binary_op-Takes 32 a.product
    ▸ binary_op-Takes 32 a.quotient
    ▸ binary_op-Takes 32 (fmin single)
    ▸ binary_op-Takes 32 (fmax single)
    ▸ binary_op-Takes 32 (fcopysign single)
    ▸ tt

pub float_f64-Follow : (a : Arithmetic) → All Follows (float_f64 a)
unfolding float_f64 instruction_type
float_f64-Follow a =
    unary_op-Takes 64 (fabs double)
    ▸ unary_op-Takes 64 (fneg double)
    ▸ unary_op-Takes 64 (fceil double)
    ▸ unary_op-Takes 64 (ffloor double)
    ▸ unary_op-Takes 64 (ftrunc double)
    ▸ unary_op-Takes 64 (fnearest double a)
    ▸ unary_op-Takes 64 a.sqrt
    ▸ binary_op-Takes 64 a.sum
    ▸ binary_op-Takes 64 a.difference
    ▸ binary_op-Takes 64 a.product
    ▸ binary_op-Takes 64 a.quotient
    ▸ binary_op-Takes 64 (fmin double)
    ▸ binary_op-Takes 64 (fmax double)
    ▸ binary_op-Takes 64 (fcopysign double)
    ▸ tt

pub conversions-Follow : All Follows conversions
unfolding conversions instruction_type
conversions-Follow =
    reinterpret-Takes 32
    ▸ trunc-Takes single single_int32 32
    ▸ trunc-Takes single single_uint32 32
    ▸ trunc-Takes double double_int32 32
    ▸ trunc-Takes double double_uint32 32
    ▸ unary_op-Takes 32 (extend_signed 32 64)
    ▸ reinterpret-Takes 32
    ▸ trunc-Takes single single_int64 64
    ▸ trunc-Takes single single_uint64 64
    ▸ trunc-Takes double double_int64 64
    ▸ trunc-Takes double double_uint64 64
    ▸ tt

pub float_conversions-Follow :
    (a32 a64 : Arithmetic) (demote promote : ℕ → ℕ)
    → All Follows (float_conversions a32 a64 demote promote)
unfolding float_conversions instruction_type
float_conversions-Follow a32 a64 demote promote =
    convert-Takes 32 a32.from_int true
    ▸ convert-Takes 32 a32.from_int false
    ▸ convert-Takes 64 a32.from_int true
    ▸ convert-Takes 64 a32.from_int false
    ▸ unary_op-Takes 64 demote
    ▸ convert-Takes 32 a64.from_int true
    ▸ convert-Takes 32 a64.from_int false
    ▸ convert-Takes 64 a64.from_int true
    ▸ convert-Takes 64 a64.from_int false
    ▸ unary_op-Takes 32 promote
    ▸ reinterpret-Takes 32
    ▸ reinterpret-Takes 64
    ▸ reinterpret-Takes 32
    ▸ reinterpret-Takes 64
    ▸ tt
