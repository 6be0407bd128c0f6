-- ===== src/Parser/Expr/State.antt =====
-- lib/fizzy/parser_expr.cpp: the local variables of `parse_expr` and the steps on them that its
-- instruction handlers share.
use fizzy.Common.{
  ℕ, zero, suc, ◌+◌, ◌-◌, ◌/◌, ◌%◌, true, false, List, [], ◌∷◌, ◌++◌, length, take, drop, get_elem?,
  set, ltb, leb, Option, if◌then◌else◌,
}
use fizzy.Common.{Result, ok, err, ◌>>=◌, ◌>>◌, assert, asserted, validation_error}
use fizzy.Common.{invalid_local_index}
use fizzy.Types.{ValType, Locals}
use fizzy.Module.{Module}
use fizzy.Parser.Expr.Stacks.{
  ControlFrame, OperandStackType, top, shrink, update_operand_stack, drop_operand,
  update_branch_stack, get_branch_arity,
}

-- What the body is parsed for: the module, the inputs of the function, its local variables.
pub record ExprContext : Type 0 where
  pub parsed : Module
  pub func_inputs : List ValType
  pub locals : List Locals

pub record ExprState : Type 0 where
  pub instructions : List ℕ
  pub max_stack_height : ℕ
  pub control_stack : List ControlFrame
  pub operand_stack : List OperandStackType

-- The bytes that `store` writes for an unsigned value of `size` bytes, on a little-endian target.
unfoldable pub stored_bytes : ℕ → ℕ → List ℕ
stored_bytes zero value = []
stored_bytes (suc size) value = value % 256 ∷ stored_bytes size (value / 256)

-- `store` of a 32-bit value to `data() + offset`, which has to stay inside of the buffer.
unfoldable pub store_u32 : ℕ → ℕ → List ℕ → Result (List ℕ)
unfolding stored_bytes
store_u32 offset value code = do
  assert (leb (offset + 4) (length code))
  ok (take offset code ++ stored_bytes 4 value ++ drop (offset + 4) code)

-- The loop that fills the immediates of the branches out of a block.
unfoldable pub store_at_all : List ℕ → ℕ → List ℕ → Result (List ℕ)
unfolding store_u32
store_at_all [] value code = ok code
store_at_all (offset ∷ offsets) value code =
    store_u32 offset value code >>= λ stored. store_at_all offsets value stored

-- `code.instructions.push_back(opcode)`
unfoldable pub push_opcode : ℕ → ExprState → ExprState
push_opcode opcode s = record s { instructions = s.instructions ++ opcode ∷ [] }

-- `push(code.instructions, value)` for a value of `size` bytes.
unfoldable pub push_value : ℕ → ℕ → ExprState → ExprState
unfolding stored_bytes
push_value size value s = record s { instructions = s.instructions ++ stored_bytes size value }

-- An instruction with an immediate of `size` bytes.
abbrev pub push_instruction : ℕ → ℕ → ℕ → ExprState → ExprState
push_instruction opcode size value s = push_value size value (push_opcode opcode s)

abbrev pub push_operand : OperandStackType → ExprState → ExprState
push_operand type s = record s { operand_stack = type ∷ s.operand_stack }

-- `update_operand_stack(frame, operand_stack, inputs, outputs)` for the top frame.
unfoldable pub apply_type : List ValType → List ValType → ExprState → Result ExprState
unfolding update_operand_stack
apply_type inputs outputs s = top s.control_stack >>= λ frame.
    update_operand_stack frame s.operand_stack inputs outputs >>= λ stack.
    ok (record s { operand_stack = stack })

-- `drop_operand(frame, operand_stack, type)` for the top frame.
unfoldable pub drop_type : OperandStackType → ExprState → Result ExprState
unfolding drop_operand
drop_type type s = top s.control_stack >>= λ frame.
    drop_operand frame s.operand_stack type >>= λ stack. ok (record s { operand_stack = stack })

unfoldable pub mark_frame_unreachable : ExprState → Result ExprState
unfolding shrink
mark_frame_unreachable s = top s.control_stack >>= λ frame.
    shrink frame.parent_stack_height s.operand_stack >>= λ stack. ok (record s {
      control_stack = set s.control_stack 0 (record frame { unreachable = true });
      operand_stack = stack;
    })

-- `control_stack.emplace(instruction, type, operand_stack.size(), code.instructions.size())`
abbrev pub emplace_frame : ℕ → Option ValType → ExprState → ExprState
emplace_frame instruction type s = record s {
  control_stack =
      record {
        instruction = instruction;
        type = type;
        code_offset = length s.instructions;
        parent_stack_height = length s.operand_stack;
        unreachable = false;
        br_immediate_offsets = [];
      }
      ∷ s.control_stack;
}

-- Remembers the offset of the immediates of a branch in the frame of its label, and pushes them:
-- `br_immediate_offsets.push_back` and `push_branch_immediates`.
unfoldable pub push_branch : ℕ → ExprState → Result ExprState
unfolding push_value
push_branch label s = asserted (get_elem? s.control_stack label) >>= λ branch.
    let stack_drop = length s.operand_stack - branch.parent_stack_height in
    let offsets = branch.br_immediate_offsets ++ length s.instructions ∷ [] in
    let noted = record s {
      control_stack = set s.control_stack label (record branch { br_immediate_offsets = offsets });
    } in
    ok (push_value 4 stack_drop (push_value 4 branch.code_offset noted))

-- What `br`, `br_if` and `return_` share: the operands, then the instruction with its immediates.
unfoldable pub branch_to : ℕ → ℕ → ExprState → Result ExprState
unfolding push_branch push_value push_opcode update_branch_stack
branch_to opcode label s = top s.control_stack >>= λ frame.
    asserted (get_elem? s.control_stack label) >>= λ branch.
    update_branch_stack frame branch s.operand_stack >>= λ stack.
    push_branch label
      (push_instruction opcode 4 (get_branch_arity branch) (record s { operand_stack = stack }))

-- The loop of `find_local_type` over the declarations: `local_count` locals stand before these.
unfoldable pub find_in_locals : ℕ → ℕ → List Locals → Result ValType
find_in_locals local_idx local_count [] = err (validation_error invalid_local_index)
find_in_locals local_idx local_count (l ∷ ls) =
    let later = find_in_locals local_idx (local_count + l.count) ls in
    if leb local_count local_idx
    then (if ltb local_idx (local_count + l.count) then ok l.type else later)
    else later

unfoldable pub find_local_type : List ValType → List Locals → ℕ → Result ValType
unfolding find_in_locals
find_local_type params locals idx =
    if ltb idx (length params)
    then asserted (get_elem? params idx)
    else find_in_locals (idx - length params) 0 locals
