-- ===== src/Parser/Expr/Handlers.antt =====
-- lib/fizzy/parser_expr.cpp: the cases of the `switch` in `parse_expr` that read immediates, each from
-- the state after `update_operand_stack` for the row of the type table, up to the `continue` or to
-- the `break` with the opcode pushed.
use fizzy.Common.{ℕ, ◌+◌, ◌*◌, ◌||◌, length, get_elem?, ltb, leb, ◌==◌, Option, if◌then◌else◌}
use fizzy.Common.{ok, asserted, parser_error, validation_error}
use fizzy.Common.{
  stack_underflow, call_function_index, call_indirect_table, call_indirect_type,
  call_indirect_table_index, accessing_global, mutating_global, excessive_alignment,
  memory_required, memory_index,
}
use fizzy.Types.{ValType}
use fizzy.Instr
use fizzy.Instructions.{instruction_max_align}
use fizzy.Leb128.{leb128s_decode}
use fizzy.Module.{get_function_count, get_function_type, get_global_count, get_global_type}
use fizzy.Module.{has_table, has_memory}
use fizzy.Parser.Monad.{Parser, ◌>>=◌, ◌>>◌, return, ensure, lift}
use fizzy.Parser.Basic.{parse_byte, parse_u32, parse_vec_i32, parse_value}
use fizzy.Parser.Expr.Stacks.{unknown, from_valtype, top}
use fizzy.Parser.Expr.State.{
  ExprContext, ExprState, push_opcode, push_value, push_instruction, push_operand, apply_type,
  drop_type, emplace_frame, find_local_type,
}
use fizzy.Parser.Expr.Blocks.{blocktype_of, br, br_if, br_table}

unfoldable pub parse_blocktype : Parser (Option ValType)
unfolding parse_byte blocktype_of
parse_blocktype = do type ← parse_byte; lift (blocktype_of type)

-- `block` and `loop`
unfoldable pub handle_block : ℕ → ExprState → Parser ExprState
unfolding parse_blocktype push_opcode
handle_block opcode s = do
  type ← parse_blocktype
  return (push_opcode opcode (emplace_frame opcode type s))

unfoldable pub handle_if : ExprState → Parser ExprState
unfolding parse_blocktype push_opcode push_value
handle_if s = do
  type ← parse_blocktype
  return (push_instruction Instr.if_ 4 0 (emplace_frame Instr.if_ type s))

unfoldable pub handle_br : ExprState → Parser ExprState
unfolding parse_u32 br
handle_br s = do label ← parse_u32; lift (br label s)

unfoldable pub handle_br_if : ExprState → Parser ExprState
unfolding parse_u32 br_if
handle_br_if s = do label ← parse_u32; lift (br_if label s)

unfoldable pub handle_br_table : ExprState → Parser ExprState
unfolding parse_vec_i32 parse_u32 br_table
handle_br_table s = do
  labels ← parse_vec_i32
  default_label ← parse_u32
  lift (br_table labels default_label s)

unfoldable pub handle_select : ExprState → Parser ExprState
unfolding drop_type push_opcode
handle_select s = do
  frame ← lift (top s.control_stack)
  let height = length s.operand_stack
  ensure (frame.unreachable || leb (frame.parent_stack_height + 2) height)
      (validation_error stack_underflow)
  operand_type ←
      lift (if ltb frame.parent_stack_height height then top s.operand_stack else ok unknown)
  s' ← lift (drop_type operand_type s)
  s'' ← lift (drop_type operand_type s')
  return (push_opcode Instr.select (push_operand operand_type s''))

unfoldable pub handle_call : ExprContext → ExprState → Parser ExprState
unfolding parse_u32 apply_type get_function_type push_opcode push_value
handle_call ctx s = do
  callee ← parse_u32
  ensure (ltb callee (get_function_count ctx.parsed)) (validation_error call_function_index)
  callee_type ← lift (asserted (get_function_type ctx.parsed callee))
  s' ← lift (apply_type callee_type.inputs callee_type.outputs s)
  return (push_instruction Instr.call 4 callee s')

unfoldable pub handle_call_indirect : ExprContext → ExprState → Parser ExprState
unfolding parse_u32 parse_byte apply_type push_opcode push_value
handle_call_indirect ctx s = do
  ensure (has_table ctx.parsed) (validation_error call_indirect_table)
  type_idx ← parse_u32
  ensure (ltb type_idx (length ctx.parsed.typesec)) (validation_error call_indirect_type)
  callee_type ← lift (asserted (get_elem? ctx.parsed.typesec type_idx))
  s' ← lift (apply_type callee_type.inputs callee_type.outputs s)
  table_idx ← parse_byte
  ensure (table_idx == 0) (parser_error call_indirect_table_index)
  return (push_instruction Instr.call_indirect 4 type_idx s')

unfoldable pub handle_local_get : ExprContext → ExprState → Parser ExprState
unfolding parse_u32 find_local_type push_opcode push_value
handle_local_get ctx s = do
  idx ← parse_u32
  type ← lift (find_local_type ctx.func_inputs ctx.locals idx)
  return (push_instruction Instr.local_get 4 idx (push_operand (from_valtype type) s))

unfoldable pub handle_local_set : ExprContext → ExprState → Parser ExprState
unfolding parse_u32 find_local_type drop_type push_opcode push_value
handle_local_set ctx s = do
  idx ← parse_u32
  type ← lift (find_local_type ctx.func_inputs ctx.locals idx)
  s' ← lift (drop_type (from_valtype type) s)
  return (push_instruction Instr.local_set 4 idx s')

unfoldable pub handle_local_tee : ExprContext → ExprState → Parser ExprState
unfolding parse_u32 find_local_type drop_type push_opcode push_value
handle_local_tee ctx s = do
  idx ← parse_u32
  type ← lift (find_local_type ctx.func_inputs ctx.locals idx)
  s' ← lift (drop_type (from_valtype type) s)
  return (push_instruction Instr.local_tee 4 idx (push_operand (from_valtype type) s'))

unfoldable pub handle_global_get : ExprContext → ExprState → Parser ExprState
unfolding parse_u32 get_global_type push_opcode push_value
handle_global_get ctx s = do
  idx ← parse_u32
  ensure (ltb idx (get_global_count ctx.parsed)) (validation_error accessing_global)
  type ← lift (asserted (get_global_type ctx.parsed idx))
  return (push_instruction Instr.global_get 4 idx (push_operand (from_valtype type.value_type) s))

unfoldable pub handle_global_set : ExprContext → ExprState → Parser ExprState
unfolding parse_u32 get_global_type drop_type push_opcode push_value
handle_global_set ctx s = do
  idx ← parse_u32
  ensure (ltb idx (get_global_count ctx.parsed)) (validation_error accessing_global)
  type ← lift (asserted (get_global_type ctx.parsed idx))
  ensure type.is_mutable (validation_error mutating_global)
  s' ← lift (drop_type (from_valtype type.value_type) s)
  return (push_instruction Instr.global_set 4 idx s')

-- `i32_const` and `i64_const` with `bytes` 4 and 8: the number is kept in two's complement.
unfoldable pub handle_int_const : ℕ → ℕ → ExprState → Parser ExprState
unfolding leb128s_decode push_opcode push_value
handle_int_const opcode bytes s = do
  value ← leb128s_decode (8 * bytes)
  return (push_instruction opcode bytes value s)

-- `f32_const` and `f64_const`
unfoldable pub handle_float_const : ℕ → ℕ → ExprState → Parser ExprState
unfolding parse_value push_opcode push_value
handle_float_const opcode bytes s = do
  value ← parse_value bytes
  return (push_instruction opcode bytes value s)

-- The loads and the stores.
unfoldable pub handle_memory_access : ExprContext → ℕ → ExprState → Parser ExprState
unfolding parse_u32 instruction_max_align push_opcode push_value
handle_memory_access ctx opcode s = do
  align ← parse_u32
  ensure (leb align (instruction_max_align opcode)) (validation_error excessive_alignment)
  offset ← parse_u32
  ensure (has_memory ctx.parsed) (validation_error memory_required)
  return (push_instruction opcode 4 offset s)

-- `memory_size` and `memory_grow`
unfoldable pub handle_memory : ExprContext → ℕ → ExprState → Parser ExprState
unfolding parse_byte push_opcode
handle_memory ctx opcode s = do
  memory_idx ← parse_byte
  ensure (memory_idx == 0) (parser_error memory_index)
  ensure (has_memory ctx.parsed) (validation_error memory_required)
  return (push_opcode opcode s)
