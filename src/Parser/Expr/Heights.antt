-- ===== src/Parser/Expr/Heights.antt =====
-- The operations of lib/fizzy/parser_expr.cpp on the operand stack never pop from an empty stack, and
-- never go below the height where the current frame began.
use fizzy.Common.{
  ℕ, ◌+◌, ◌-◌, ◌≤◌, ◌≡◌, refl, inl, inr, arith, false, not, ◌&&◌, List, [], ◌∷◌, Option, none, some,
  length, length-drop, length-append, ltb, Bool-cases,
}
use fizzy.Common.{ok}
use fizzy.Types.{ValType}
use fizzy.Parser.Expr.Stacks.{
  ControlFrame, OperandStackType, from_valtype, shrink, pop_inputs, push_outputs,
  update_operand_stack, drop_operand, drop_result, update_result_stack, update_branch_stack,
  get_branch_frame_type,
}
use fizzy.Parser.Expr.Yields.{Yields, >>=-Yields}
use mathlib.Core.List.{reverse, reverse-cons}

-- There are operands above the frame's begin, as many as `n` unless the code is unreachable.
abbrev Holds : ControlFrame → ℕ → List OperandStackType → Type 0
Holds frame n stack =
    (frame.parent_stack_height ≤ length stack)
    × (frame.unreachable ≡ false → frame.parent_stack_height + n ≤ length stack)

abbrev pub Above : ControlFrame → List OperandStackType → Type 0
Above frame stack = frame.parent_stack_height ≤ length stack

pop_inputs-Above :
    (frame : ControlFrame) (ts : List ValType) (stack : List OperandStackType)
    → Holds frame (length ts) stack
    → Yields (Above frame) (pop_inputs frame ts stack)
unfolding pop_inputs
pop_inputs-Above frame [] stack h = h.0
pop_inputs-Above frame (t ∷ ts) [] h = ground arith
pop_inputs-Above frame (t ∷ ts) (x ∷ xs) h = ground (arith, pop_inputs-Above frame ts xs)

pub length-push_outputs :
    (ts : List ValType) (stack : List OperandStackType)
    → length (push_outputs ts stack) ≡ length ts + length stack
length-push_outputs [] stack = omega arith
length-push_outputs (t ∷ ts) stack = omega (arith, length-push_outputs ts (from_valtype t ∷ stack))

pub drop_operand-Above :
    (frame : ControlFrame) (stack : List OperandStackType) (type : OperandStackType)
    → Above frame stack
    → Yields (Above frame) (drop_operand frame stack type)
unfolding drop_operand
drop_operand-Above frame [] type h = ground arith
drop_operand-Above frame (x ∷ xs) type h = ground arith

pub drop_result-Above :
    (frame : ControlFrame) (stack : List OperandStackType) (type : Option ValType)
    → Above frame stack
    → Yields (Above frame) (drop_result frame stack type)
unfolding drop_result
drop_result-Above frame stack none h = h
drop_result-Above frame stack (some t) h = drop_operand-Above frame stack (from_valtype t) h

pub update_result_stack-Above :
    (frame : ControlFrame) (stack : List OperandStackType)
    → Above frame stack
    → Yields (Above frame) (update_result_stack frame stack)
unfolding update_result_stack
update_result_stack-Above frame stack h = ground (arith, drop_result-Above frame stack frame.type)

pub update_branch_stack-Above :
    (frame branch : ControlFrame) (stack : List OperandStackType)
    → Above frame stack
    → Yields (Above frame) (update_branch_stack frame branch stack)
unfolding update_branch_stack
update_branch_stack-Above frame branch stack h =
    ground (arith, drop_result-Above frame stack (get_branch_frame_type branch))

pub shrink-length {ℓ} :
    {A : Type ℓ} (n : ℕ) (xs : List A) → n ≤ length xs → Yields (λ ys. length ys ≡ n) (shrink n xs)
unfolding shrink
shrink-length n xs h = ground (arith, length-drop (length xs - n) xs)

length-reverse : (ts : List ValType) → length (reverse ts) ≡ length ts
length-reverse [] = refl
length-reverse (t ∷ ts) =
    rw (reverse-cons t ts) (omega (arith, length-append (reverse ts) (t ∷ []), length-reverse ts))

pub update_operand_stack-Above :
    (frame : ControlFrame) (stack : List OperandStackType) (inputs outputs : List ValType)
    → Above frame stack
    → Yields (Above frame) (update_operand_stack frame stack inputs outputs)
unfolding update_operand_stack
update_operand_stack-Above frame stack inputs outputs h =
    elim (Bool-cases
      (not frame.unreachable && ltb (length stack) (frame.parent_stack_height + length inputs))) [
        | inl short ↦ rw short refl
        | inr enough ↦ rw enough (
            >>=-Yields (Above frame) (Above frame) (pop_inputs frame (reverse inputs) stack)
              (λ below. ok (push_outputs outputs below))
              (pop_inputs-Above frame (reverse inputs) stack
                (h, ground (arith, length-reverse inputs)))
              (λ below a. omega (arith, length-push_outputs outputs below, a)))
      ]
