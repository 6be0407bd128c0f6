-- ===== src/Parser/Expr.antt =====
-- lib/fizzy/parser_expr.cpp: the parser and validator of a function body.
pub mod Stacks
pub mod State
pub mod Blocks
pub mod Handlers
pub mod Yields
pub mod Typing
pub mod LocalTypes
pub mod Heights
pub mod Invariant
pub mod Keeps
pub mod Branching
pub mod BranchTable
pub mod Blocking
pub mod Closing
pub mod Gives
pub mod Lookups
pub mod Handling
pub mod Access
pub mod Safe
pub mod Ends
mod Tests
use fizzy.Common.{
  ℕ, zero, suc, Bool, true, false, ◌&&◌, ◌||◌, not, List, [], ◌∷◌, Option, none, some, length,
  get_elem?, leb, ◌==◌, switch, if◌then◌else◌,
}
use fizzy.Common.{Result, ok, err, asserted, parser_error, invalid_instruction, assertion_failed}
use fizzy.Instr
use fizzy.Instructions.{instruction_type}
use fizzy.Types.{ValType, FuncType, Locals, Code}
use fizzy.Module.{Module}
use fizzy.Parser.Monad.{Parser, ◌>>=◌, return, throw, lift}
use fizzy.Parser.Basic.{parse_byte}
use fizzy.Parser.Expr.Stacks.{unknown, top}
use fizzy.Parser.Expr.State.{
  ExprContext, ExprState, push_opcode, apply_type, drop_type, mark_frame_unreachable,
}
use fizzy.Parser.Expr.Blocks.{handle_else, handle_end, handle_return}
use fizzy.Parser.Expr.Handlers.{
  handle_block, handle_if, handle_br, handle_br_if, handle_br_table, handle_select, handle_call,
  handle_call_indirect, handle_local_get, handle_local_set, handle_local_tee, handle_global_get,
  handle_global_set, handle_int_const, handle_float_const, handle_memory_access, handle_memory,
}
use Prim.Native.Nat.{max}

-- A `break`: the opcode is the whole instruction.
unfoldable pub then_opcode : ℕ → Result ExprState → Parser ExprState
unfolding push_opcode
then_opcode opcode r = do s ← lift r; return (push_opcode opcode s)

abbrev pub is_between : ℕ → ℕ → ℕ → Bool
is_between first last opcode = leb first opcode && leb opcode last

-- The cases of the `switch`.
abbrev pub cases : ExprContext → ℕ → ExprState → List (Bool × Parser ExprState)
cases ctx opcode s =
    (opcode == Instr.unreachable, then_opcode opcode (mark_frame_unreachable s))
    ∷ (opcode == Instr.drop, then_opcode opcode (drop_type unknown s))
    ∷ (opcode == Instr.select, handle_select s)
    ∷ (
      opcode == Instr.nop || is_between Instr.i32_eqz Instr.f64_reinterpret_i64 opcode,
      then_opcode opcode (ok s),
    )
    ∷ (opcode == Instr.block || opcode == Instr.loop, handle_block opcode s)
    ∷ (opcode == Instr.if_, handle_if s)
    ∷ (opcode == Instr.else_, lift (handle_else s))
    ∷ (opcode == Instr.end, lift (handle_end s))
    ∷ (opcode == Instr.br, handle_br s)
    ∷ (opcode == Instr.br_if, handle_br_if s)
    ∷ (opcode == Instr.br_table, handle_br_table s)
    ∷ (opcode == Instr.return_, lift (handle_return s))
    ∷ (opcode == Instr.call, handle_call ctx s)
    ∷ (opcode == Instr.call_indirect, handle_call_indirect ctx s)
    ∷ (opcode == Instr.local_get, handle_local_get ctx s)
    ∷ (opcode == Instr.local_set, handle_local_set ctx s)
    ∷ (opcode == Instr.local_tee, handle_local_tee ctx s)
    ∷ (opcode == Instr.global_get, handle_global_get ctx s)
    ∷ (opcode == Instr.global_set, handle_global_set ctx s)
    ∷ (opcode == Instr.i32_const, handle_int_const opcode 4 s)
    ∷ (opcode == Instr.i64_const, handle_int_const opcode 8 s)
    ∷ (opcode == Instr.f32_const, handle_float_const opcode 4 s)
    ∷ (opcode == Instr.f64_const, handle_float_const opcode 8 s)
    ∷ (is_between Instr.i32_load Instr.i64_store32 opcode, handle_memory_access ctx opcode s)
    ∷ (opcode == Instr.memory_size || opcode == Instr.memory_grow, handle_memory ctx opcode s)
    ∷ []

unfoldable pub parse_instruction : ExprContext → ℕ → ExprState → Parser ExprState
unfolding then_opcode mark_frame_unreachable drop_type handle_select handle_block handle_if
    handle_else handle_end handle_br handle_br_if handle_br_table handle_return handle_call
    handle_call_indirect handle_local_get handle_local_set handle_local_tee handle_global_get
    handle_global_set handle_int_const handle_float_const handle_memory_access handle_memory
parse_instruction ctx opcode s =
    switch (cases ctx opcode s) (throw (parser_error (invalid_instruction opcode)))

-- The height of the stack counts unless the code is unreachable.
unfoldable pub update_max_height : ExprState → Result ExprState
update_max_height s = elim (top s.control_stack) [
  | err e ↦ err e
  | ok frame ↦ ok (
      if frame.unreachable
      then s
      else record s { max_stack_height = max s.max_stack_height (length s.operand_stack) })
]

-- One round of the loop.
unfoldable pub expr_step : ExprContext → ExprState → Parser ExprState
unfolding parse_byte update_max_height instruction_type apply_type parse_instruction
expr_step ctx s = do
  opcode ← parse_byte
  s' ← lift (update_max_height s)
  let type = instruction_type opcode
  s'' ← lift (apply_type type.inputs type.outputs s')
  parse_instruction ctx opcode s''

-- Each round takes the byte of an opcode at least. Where the fuel runs out the result is `none`.
unfoldable pub expr_loop :
    ℕ → ExprContext → ExprState → List ℕ → Option (Result (ExprState × List ℕ))
unfolding expr_step
expr_loop zero ctx s bs = none
expr_loop (suc fuel) ctx s bs = elim (expr_step ctx s bs) [
  | err e ↦ some (err e)
  | ok (s', rest) ↦
      if length s'.control_stack == 0 then some (ok (s', rest)) else expr_loop fuel ctx s' rest
]

-- The function's implicit block.
abbrev pub start : FuncType → ExprState
start func_type = record {
  instructions = [];
  max_stack_height = 0;
  control_stack =
      record {
        instruction = Instr.block;
        type = get_elem? func_type.outputs 0;
        code_offset = 0;
        parent_stack_height = 0;
        unreachable = false;
        br_immediate_offsets = [];
      }
      ∷ [];
  operand_stack = [];
}

abbrev pub code_of : ExprState → Code
code_of s = record {
  max_stack_height = s.max_stack_height;
  local_count = 0;
  instructions = s.instructions;
}

-- `module.typesec[module.funcsec[func_idx]]`
abbrev pub type_of_function : Module → ℕ → Option FuncType
type_of_function m func_idx = elim (get_elem? m.funcsec func_idx) [
  | none ↦ none
  | some type_idx ↦ get_elem? m.typesec type_idx
]

unfoldable pub parse_expr : ℕ → List Locals → Module → List ℕ → Option (Result (Code × List ℕ))
unfolding expr_loop
parse_expr func_idx locals m bs = elim (type_of_function m func_idx) [
  | none ↦ some (err (parser_error assertion_failed))
  | some func_type ↦
      let ctx : ExprContext = record {
        parsed = m;
        func_inputs = func_type.inputs;
        locals = locals;
      } in
      elim (expr_loop (suc (length bs)) ctx (start func_type) bs) [
        | none ↦ none
        | some (err e) ↦ some (err e)
        | some (ok (s, rest)) ↦ some (ok (code_of s, rest))
      ]
]
