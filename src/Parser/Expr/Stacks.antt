-- ===== src/Parser/Expr/Stacks.antt =====
-- lib/fizzy/parser_expr.cpp: the control frames, and the stack of operand types with the checks that
-- pop from it. A `Stack` of lib/fizzy/stack.hpp is the list of its items, the top first, so that
-- `stack[i]` is the item at `i`. The heights, which the source keeps as `int`, are numbers.
use fizzy.Common.{
  ℕ, ◌+◌, ◌-◌, Bool, true, not, ◌&&◌, List, [], ◌∷◌, Option, none, some, length, drop, ltb, leb,
  ◌==◌, if◌then◌else◌, Result, ok, err, ◌>>=◌, ◌>>◌, check, assert, parser_error, validation_error,
  assertion_failed, stack_underflow, type_mismatch, too_many_results,
}
use fizzy.Types.{ValType, same_valtype}
use fizzy.Instr
use mathlib.Core.List.{reverse}

pub record ControlFrame : Type 0 where
  pub instruction : ℕ
  pub type : Option ValType
  pub code_offset : ℕ
  pub parent_stack_height : ℕ
  pub unreachable : Bool
  pub br_immediate_offsets : List ℕ

-- The enumerators after `Unknown` are those of `ValType`.
pub data OperandStackType : Type 0 where
  unknown : OperandStackType
  from_valtype : ValType → OperandStackType

unfoldable pub type_matches : OperandStackType → OperandStackType → Bool
type_matches _ unknown = true
type_matches unknown (from_valtype t) = true
type_matches (from_valtype s) (from_valtype t) = same_valtype s t

-- `Stack::pop`
abbrev pub pop {ℓ} : {A : Type ℓ} → List A → Result (A × List A)
pop [] = err (parser_error assertion_failed)
pop (x ∷ xs) = ok (x, xs)

-- `Stack::top`
abbrev pub top {ℓ} : {A : Type ℓ} → List A → Result A
top [] = err (parser_error assertion_failed)
top (x ∷ xs) = ok x

-- `Stack::shrink`
unfoldable pub shrink {ℓ} : {A : Type ℓ} → ℕ → List A → Result (List A)
shrink new_size stack = do
  assert (leb new_size (length stack))
  ok (drop (length stack - new_size) stack)

-- The loop over the inputs, which are given from the last to the first.
unfoldable pub pop_inputs :
    ControlFrame → List ValType → List OperandStackType → Result (List OperandStackType)
unfolding type_matches
pop_inputs frame [] stack = ok stack
pop_inputs frame (expected ∷ more) stack =
    if frame.unreachable && length stack == frame.parent_stack_height
    then ok stack
    else pop stack >>= λ (actual, below).
        check (type_matches actual (from_valtype expected)) (validation_error type_mismatch)
        >> pop_inputs frame more below

abbrev pub push_outputs : List ValType → List OperandStackType → List OperandStackType
push_outputs [] stack = stack
push_outputs (t ∷ ts) stack = push_outputs ts (from_valtype t ∷ stack)

unfoldable pub update_operand_stack :
    ControlFrame
    → List OperandStackType
    → List ValType
    → List ValType
    → Result (List OperandStackType)
unfolding pop_inputs
update_operand_stack frame stack inputs outputs =
    if not frame.unreachable && ltb (length stack) (frame.parent_stack_height + length inputs)
    then err (validation_error stack_underflow)
    else pop_inputs frame (reverse inputs) stack >>= λ below. ok (push_outputs outputs below)

unfoldable pub drop_operand :
    ControlFrame → List OperandStackType → OperandStackType → Result (List OperandStackType)
unfolding type_matches
drop_operand frame stack expected =
    if not frame.unreachable && ltb (length stack) (frame.parent_stack_height + 1)
    then err (validation_error stack_underflow)
    else (if length stack == frame.parent_stack_height
        then assert frame.unreachable >> ok stack
        else pop stack >>= λ (actual, below).
            check (type_matches actual expected) (validation_error type_mismatch) >> ok below)

-- The result of a block or of a branch, if it has one.
unfoldable pub drop_result :
    ControlFrame → List OperandStackType → Option ValType → Result (List OperandStackType)
unfolding drop_operand
drop_result frame stack none = ok stack
drop_result frame stack (some t) = drop_operand frame stack (from_valtype t)

abbrev pub arity : Option ValType → ℕ
arity none = 0
arity (some t) = 1

unfoldable pub update_result_stack :
    ControlFrame → List OperandStackType → Result (List OperandStackType)
unfolding drop_result
update_result_stack frame stack =
    let height = length stack in
    assert (leb frame.parent_stack_height height)
    >> check (leb height (frame.parent_stack_height + arity frame.type))
        (validation_error too_many_results)
    >> drop_result frame stack frame.type

abbrev pub get_branch_frame_type : ControlFrame → Option ValType
get_branch_frame_type frame = if frame.instruction == Instr.loop then none else frame.type

abbrev pub get_branch_arity : ControlFrame → ℕ
get_branch_arity frame = arity (get_branch_frame_type frame)

unfoldable pub update_branch_stack :
    ControlFrame → ControlFrame → List OperandStackType → Result (List OperandStackType)
unfolding drop_result
update_branch_stack current_frame branch_frame stack =
    assert (leb current_frame.parent_stack_height (length stack))
    >> drop_result current_frame stack (get_branch_frame_type branch_frame)
