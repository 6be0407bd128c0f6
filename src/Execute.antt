-- ===== src/Execute.antt =====
-- lib/fizzy/execute.cpp: the interpreter.
pub mod Integers
pub mod Floats
pub mod Operators
pub mod Memory
pub mod Numeric
pub mod State
pub mod Control
pub mod Globals
pub mod Operands
pub mod Alignment
pub mod Depth
mod Tests
use fizzy.Common.{
  ℕ, zero, suc, ◌+◌, ◌⊎◌, inl, inr, List, [], ◌∷◌, ◌++◌, length, get_elem?, ltb, leb, ◌==◌, not,
  if◌then◌else◌, switch, Option, none, some, Bool, true, false, Run, done, broken, ◌then◌, require,
  present,
}
use fizzy.Types.{FuncType, Code}
use fizzy.Module.{get_function_type, get_code}
use fizzy.Stack.{OperandStack, operand_stack, size, top}
use fizzy.Instance.{
  Instance, Store, ExecuteFunction, ExternalFunction, wasm_function, host_function, get_instance,
}
use fizzy.Instr
use Numeric.Compare.{Row, compare_i32, compare_i64, compare_f32, compare_f64}
use Numeric.Words.{integer_i32, integer_i64}
use Numeric.Fractions.{float_f32, float_f64}
use Numeric.Conversions.{conversions, float_conversions}
use Numeric.Accesses.{Access, load_cases, store_cases}
use State.{
  Outcome, gives, traps, failed, exhausted, ◌after◌, in_store, Returned, Call, HostCall, Platform,
  Frame, Machine, Next, go_on, finish, Handler,
}
use Control.{
  on_stack, handle_if, handle_else, handle_end, handle_br, handle_br_if, handle_br_table,
  handle_call, handle_call_indirect, handle_drop, handle_select, handle_local_get, handle_local_set,
  handle_local_tee, handle_const,
}
use Globals.{
  handle_global_get, handle_global_set, handle_load, handle_store, handle_memory_size,
  handle_memory_grow,
}

-- What an opcode has in a list of cases.
abbrev pub find_case {ℓ} : {A : Type ℓ} → List (ℕ × A) → ℕ → Option A
find_case [] opcode = none
find_case ((o, a) ∷ cases) opcode = if o == opcode then some a else find_case cases opcode

unfoldable pub numeric_cases : Platform → List Row
unfolding compare_i32 compare_i64 compare_f32 compare_f64 integer_i32 integer_i64 float_f32
    float_f64 conversions float_conversions
numeric_cases p =
    compare_i32
    ++ compare_i64
    ++ compare_f32
    ++ compare_f64
    ++ integer_i32 p.builtins
    ++ integer_i64 p.builtins
    ++ float_f32 p.single_arithmetic
    ++ float_f64 p.double_arithmetic
    ++ conversions
    ++ float_conversions p.single_arithmetic p.double_arithmetic p.demote p.promote

-- A case that only uses the operands.
abbrev pub on_operands : (OperandStack → Run OperandStack) → Handler
on_operands f frame m =
    in_store m.store (f m.stack then λ stack'. done (go_on (record m { stack = stack' })))

-- The loads, the stores and the numeric instructions.
unfoldable pub other_cases : Platform → ℕ → Handler
unfolding handle_load handle_store load_cases numeric_cases
other_cases p instruction frame m = elim (find_case {A = Access} load_cases instruction) [
  | some (number, extended) ↦ handle_load number extended frame m
  | none ↦ elim (find_case store_cases instruction) [
    | some number ↦ handle_store number frame m
    | none ↦ elim (find_case (numeric_cases p) instruction) [
      | some f ↦ on_operands f frame m
      | none ↦ failed
    ]
  ]
]

abbrev pub skip : Handler
skip frame m = gives (go_on m)

abbrev pub trap_case : Handler
trap_case frame m = traps m.store

-- The cases of the switch that are no numeric ones.
unfoldable pub handlers : Platform → Call → List (ℕ × Handler)
unfolding handle_if handle_else handle_end handle_br handle_br_if handle_br_table handle_call
    handle_call_indirect handle_drop handle_select handle_local_get handle_local_set
    handle_local_tee handle_const handle_global_get handle_global_set handle_memory_size
    handle_memory_grow
handlers p call =
    (Instr.unreachable, trap_case)
    ∷ (Instr.nop, skip)
    ∷ (Instr.block, skip)
    ∷ (Instr.loop, skip)
    ∷ (Instr.if_, on_stack handle_if)
    ∷ (Instr.else_, on_stack handle_else)
    ∷ (Instr.end, handle_end)
    ∷ (Instr.br, on_stack handle_br)
    ∷ (Instr.br_if, on_stack handle_br_if)
    ∷ (Instr.return_, on_stack handle_br)
    ∷ (Instr.br_table, on_stack handle_br_table)
    ∷ (Instr.call, handle_call call)
    ∷ (Instr.call_indirect, handle_call_indirect call)
    ∷ (Instr.drop, on_operands handle_drop)
    ∷ (Instr.select, on_operands handle_select)
    ∷ (Instr.local_get, on_stack handle_local_get)
    ∷ (Instr.local_set, on_stack handle_local_set)
    ∷ (Instr.local_tee, on_stack handle_local_tee)
    ∷ (Instr.global_get, handle_global_get)
    ∷ (Instr.global_set, handle_global_set)
    ∷ (Instr.memory_size, handle_memory_size)
    ∷ (Instr.memory_grow, handle_memory_grow p.can_resize)
    ∷ (Instr.i32_const, on_stack (handle_const 4))
    ∷ (Instr.f32_const, on_stack (handle_const 4))
    ∷ (Instr.i64_const, on_stack (handle_const 8))
    ∷ (Instr.f64_const, on_stack (handle_const 8))
    ∷ []

-- One round of the loop; a byte that no case names is a failure.
unfoldable pub step : Platform → Call → Handler
unfolding other_cases handlers
step p call frame m =
    in_store m.store (present (get_elem? frame.code.instructions m.pc)) after λ instruction.
    let m' = record m { pc = m.pc + 1 } in
    elim (find_case (handlers p call) instruction) [
      | some handler ↦ handler frame m'
      | none ↦ other_cases p instruction frame m'
    ]

-- The end of a round: the loop goes on with `rest`, or ends.
abbrev pub end_round : (Machine → Outcome Machine) → Next → Outcome Machine
end_round rest (finish m) = gives m
end_round rest (go_on m) = rest m

-- `while (true)`, where a call is `call`.
unfoldable pub loop : Platform → Call → ℕ → Frame → Machine → Outcome Machine
unfolding step
loop p call zero frame m = exhausted
loop p call (suc fuel) frame m =
    step p call frame m after λ next. end_round (λ m'. loop p call fuel frame m') next

-- What stands behind the label `end`.
unfoldable pub finished : FuncType → Frame → Machine → Outcome Returned
unfolding size top
finished func_type frame m = in_store m.store (
    require (m.pc == length frame.code.instructions) (
      require (size m.stack == length func_type.outputs) (
        if not (size m.stack == 0)
        then (top m.stack then λ value. done (some value, m.store))
        else done (none, m.store))))

-- `CallStackLimit`
abbrev pub call_stack_limit : ℕ
call_stack_limit = 2048

-- `ExecuteFunction::operator()`
unfoldable pub execute_function : Platform → Call → ExecuteFunction → HostCall
execute_function p call (wasm_function instance func_idx) caller args depth store =
    call instance func_idx args depth store
execute_function p call (host_function f) caller args depth store =
    p.host_call f caller args depth store

-- The code of a function of the instance.
unfoldable pub execute_code :
    Platform → Call → ℕ → FuncType → Code → ℕ → List ℕ → ℕ → Store → Outcome Returned
unfolding operand_stack loop finished
execute_code p call fuel func_type code instance args depth store =
    let frame : Frame = record { code = code; instance = instance; depth = depth + 1 } in
    in_store store
      (operand_stack p.junk args (length func_type.inputs) code.local_count code.max_stack_height)
    after λ stack.
        let m₀ : Machine = record { pc = 0; stack = stack; store = store } in
        loop p call fuel frame m₀ after λ m. finished func_type frame m

-- The imported function or the code with an index.
unfoldable pub find_body : Instance → ℕ → Run (ExternalFunction ⊎ Code)
unfolding get_code
find_body i func_idx =
    if ltb func_idx (length i.imported_functions)
    then (present (get_elem? i.imported_functions func_idx) then λ f. done (inl f))
    else (present (get_code i.module_of func_idx) then λ code. done (inr code))

unfoldable pub execute_body :
    Platform
    → Call
    → ℕ
    → FuncType
    → ℕ
    → List ℕ
    → ℕ
    → Store
    → ExternalFunction ⊎ Code
    → Outcome Returned
unfolding execute_function execute_code
execute_body p call fuel func_type instance args depth store (inl external) =
    execute_function p call external.function instance args depth store
execute_body p call fuel func_type instance args depth store (inr code) =
    execute_code p call fuel func_type code instance args depth store

-- `execute`; the fuel bounds the depth of the calls and the rounds of each loop.
unfoldable pub execute : Platform → ℕ → Call
unfolding get_function_type find_body execute_body
execute p zero instance func_idx args depth store = exhausted
execute p (suc fuel) instance func_idx args depth store =
    if leb call_stack_limit depth
    then traps store
    else (in_store store (get_instance store instance) after λ i.
        in_store store (present (get_function_type i.module_of func_idx)) after λ func_type.
        in_store store (
          require (length i.module_of.imported_function_types == length i.imported_functions)
            (find_body i func_idx))
        after λ body. execute_body p (execute p fuel) fuel func_type instance args depth store body)
