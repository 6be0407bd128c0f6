-- ===== src/Parser/Expr/Blocks.antt =====
-- lib/fizzy/parser_expr.cpp: the handlers of the instructions that open and close blocks, and of the
-- branches. The state at the start of a handler is that after `update_operand_stack` for the row of
-- the type table.
use fizzy.Common.{
  ℕ, ◌+◌, ◌-◌, Bool, true, false, not, ◌&&◌, ◌||◌, List, [], ◌∷◌, length, get_elem?, ltb, ◌==◌,
  Option, none, some, if◌then◌else◌,
}
use fizzy.Common.{Result, ok, ◌>>=◌, ◌>>◌, check, assert, asserted, parser_error}
use fizzy.Common.{
  validation_error, unexpected_else, missing_else_result, invalid_label_index, inconsistent_labels,
}
use fizzy.Types.{ValType, same_valtype}
use fizzy.Instr
use fizzy.Parser.Basic.{validate_valtype}
use fizzy.Parser.Expr.Stacks.{
  ControlFrame, OperandStackType, from_valtype, top, shrink, update_result_stack,
  update_branch_stack, get_branch_arity, get_branch_frame_type,
}
use fizzy.Parser.Expr.State.{
  ExprState, store_u32, store_at_all, push_opcode, push_value, push_instruction, push_operand,
  mark_frame_unreachable, push_branch, branch_to,
}

unfoldable pub blocktype_of : ℕ → Result (Option ValType)
unfolding validate_valtype
blocktype_of type = if type == 0x40 then ok none else validate_valtype type >>= λ t. ok (some t)

-- `control_stack.pop(); control_stack.emplace(Instr::else_, ...)`, the branches kept.
abbrev pub else_frame : ControlFrame → ExprState → ExprState
else_frame frame s = record s {
  control_stack =
      record {
        instruction = Instr.else_;
        type = frame.type;
        code_offset = length s.instructions;
        parent_stack_height = length s.operand_stack;
        unreachable = false;
        br_immediate_offsets = frame.br_immediate_offsets;
      }
      ∷ elim s.control_stack [ [] ↦ [] | f ∷ below ↦ below ];
}

unfoldable pub handle_else : ExprState → Result ExprState
unfolding update_result_stack push_opcode push_value store_u32
handle_else s = top s.control_stack >>= λ frame.
    check (frame.instruction == Instr.if_) (parser_error unexpected_else)
    >> update_result_stack frame s.operand_stack
    >>= λ stack.
        let pushed =
          push_instruction Instr.else_ 4 0
            (else_frame frame (record s { operand_stack = stack })) in
        store_u32 (frame.code_offset + 1) (length pushed.instructions) pushed.instructions
        >>= λ code. ok (record pushed { instructions = code })

-- At the end of a block that is no loop, the immediates of `if`, of `else` and of the branches.
unfoldable pub fill_immediates : ControlFrame → ℕ → List ℕ → Result (List ℕ)
unfolding store_u32 store_at_all
fill_immediates frame target_pc code =
    if frame.instruction == Instr.loop
    then ok code
    else (if frame.instruction == Instr.if_ || frame.instruction == Instr.else_
        then store_u32 (frame.code_offset + 1) target_pc code
        else ok code)
      >>= λ filled. store_at_all frame.br_immediate_offsets target_pc filled

-- `push_operand` of the block's result, unless the block was the function's.
abbrev pub push_result :
    List ControlFrame → Option ValType → List OperandStackType → List OperandStackType
push_result [] type stack = stack
push_result (f ∷ fs) none stack = stack
push_result (f ∷ fs) (some t) stack = from_valtype t ∷ stack

abbrev pub is_some {ℓ} : {A : Type ℓ} → Option A → Bool
is_some none = false
is_some (some a) = true

-- `control_stack.size() == 1 ? code.instructions.size() : code.instructions.size() + 1`
abbrev pub end_target : ExprState → ℕ
end_target s =
    if length s.control_stack == 1 then length s.instructions else length s.instructions + 1

-- What `end` leaves, without its own opcode, when the control frame was popped.
abbrev pub close_frame : ControlFrame → List ControlFrame → ExprState → List ℕ → Result ExprState
close_frame frame below s code = shrink frame.parent_stack_height s.operand_stack >>= λ stack.
    ok (record s {
      instructions = code;
      control_stack = below;
      operand_stack = push_result below frame.type stack;
    })

unfoldable pub handle_end : ExprState → Result ExprState
unfolding update_result_stack fill_immediates shrink push_opcode
handle_end s = elim s.control_stack [
  | [] ↦ assert false >> ok s
  | frame ∷ below ↦ update_result_stack frame s.operand_stack >>= λ stack.
      check (not (is_some frame.type && frame.instruction == Instr.if_))
        (validation_error missing_else_result)
      >> fill_immediates frame (end_target s) s.instructions
      >>= λ code. close_frame frame below (record s { operand_stack = stack }) code >>= λ closed.
          ok (push_opcode Instr.end closed)
]

-- The value that `br_if` pops for its label is pushed back.
abbrev pub push_branch_result : ControlFrame → ExprState → ExprState
push_branch_result branch s = elim (get_branch_frame_type branch) [
  | none ↦ s
  | some t ↦ push_operand (from_valtype t) s
]

unfoldable pub check_label : ExprState → ℕ → Result (Unit {0})
check_label s label =
    check (ltb label (length s.control_stack)) (validation_error invalid_label_index)

unfoldable pub br : ℕ → ExprState → Result ExprState
unfolding branch_to mark_frame_unreachable check_label
br label s = check_label s label >> branch_to Instr.br label s >>= λ s'. mark_frame_unreachable s'

unfoldable pub br_if : ℕ → ExprState → Result ExprState
unfolding branch_to check_label
br_if label s = check_label s label >> branch_to Instr.br_if label s >>= λ s'.
    asserted (get_elem? s'.control_stack label) >>= λ branch. ok (push_branch_result branch s')

unfoldable pub handle_return : ExprState → Result ExprState
unfolding branch_to mark_frame_unreachable
handle_return s =
    assert (not (length s.control_stack == 0))
    >> branch_to Instr.return_ (length s.control_stack - 1) s
    >>= λ s'. mark_frame_unreachable s'

unfoldable pub check_labels : ExprState → List ℕ → Result (Unit {0})
unfolding check_label
check_labels s [] = ok tt
check_labels s (label ∷ labels) = check_label s label >> check_labels s labels

unfoldable pub same_result : Option ValType → Option ValType → Bool
same_result none none = true
same_result none (some t) = false
same_result (some s) none = false
same_result (some s) (some t) = same_valtype s t

-- The loop of `br_table` that pushes the immediates of its labels.
unfoldable pub push_branches : Option ValType → List ℕ → ExprState → Result ExprState
unfolding same_result push_branch
push_branches type [] s = ok s
push_branches type (label ∷ labels) s = asserted (get_elem? s.control_stack label) >>= λ branch.
    check (same_result (get_branch_frame_type branch) type) (validation_error inconsistent_labels)
    >> push_branch label s
    >>= λ s'. push_branches type labels s'

unfoldable pub br_table : List ℕ → ℕ → ExprState → Result ExprState
unfolding check_labels check_label update_branch_stack push_opcode push_value push_branches
    push_branch mark_frame_unreachable
br_table labels default_label s =
    check_labels s labels >> check_label s default_label >> top s.control_stack >>= λ frame.
    asserted (get_elem? s.control_stack default_label) >>= λ branch.
    update_branch_stack frame branch s.operand_stack >>= λ stack.
    push_branches (get_branch_frame_type branch) labels (
      push_value 4 (get_branch_arity branch)
        (push_instruction Instr.br_table 4 (length labels) (record s { operand_stack = stack })))
    >>= λ s'. push_branch default_label s' >>= λ s''. mark_frame_unreachable s''
