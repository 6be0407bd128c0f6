-- ===== src/Execute/Control.antt =====
-- The cases of the switch of lib/fizzy/execute.cpp that change the position in the code, that call,
-- and that use the locals.
use fizzy.Common.{
  ℕ, ◌+◌, ◌*◌, length, get_elem?, ltb, ◌==◌, not, if◌then◌else◌, Run, done, trapped, ◌then◌,
  present, or_trap,
}
use fizzy.Types.{FuncType, Code, same_functype}
use fizzy.Module.{get_function_type}
use fizzy.Stack.{OperandStack, get_local, set_local, top, push, pop}
use fizzy.Instance.{Instance, Store, get_instance, pointee}
use fizzy.Execute.Operators.{value_as}
use fizzy.Execute.State.{
  Outcome, gives, ◌after◌, in_store, Call, Frame, Machine, Next, go_on, finish, Handler, read,
  branch, invoke_function,
}

-- A case that does not use the store.
abbrev pub on_stack : (Code → ℕ → OperandStack → Run (ℕ × OperandStack)) → Handler
on_stack f frame m = in_store m.store (f frame.code m.pc m.stack) after λ (pc', stack').
    gives (go_on (record m { pc = pc'; stack = stack' }))

-- `sizeof(uint32_t)` and `BranchImmediateSize`
abbrev pub word_size : ℕ
word_size = 4

abbrev pub branch_immediate_size : ℕ
branch_immediate_size = 8

unfoldable pub handle_if : Code → ℕ → OperandStack → Run (ℕ × OperandStack)
unfolding pop read
handle_if code pc stack = pop stack then λ (condition, stack').
    if not (value_as 32 condition == 0)
    then done (pc + word_size, stack')
    else read 4 code.instructions pc then λ (target_pc, after_target). done (target_pc, stack')

unfoldable pub handle_else : Code → ℕ → OperandStack → Run (ℕ × OperandStack)
unfolding read
handle_else code pc stack =
    read 4 code.instructions pc then λ (target_pc, after_target). done (target_pc, stack)

-- `end`
unfoldable pub handle_end : Handler
handle_end frame m =
    if m.pc == length frame.code.instructions then gives (finish m) else gives (go_on m)

-- `br` and `return_`
unfoldable pub handle_br : Code → ℕ → OperandStack → Run (ℕ × OperandStack)
unfolding read branch
handle_br code pc stack =
    read 4 code.instructions pc then λ (arity, pc'). branch code pc' stack arity

unfoldable pub handle_br_if : Code → ℕ → OperandStack → Run (ℕ × OperandStack)
unfolding read branch pop
handle_br_if code pc stack = read 4 code.instructions pc then λ (arity, pc').
    pop stack then λ (condition, stack').
    if value_as 32 condition == 0
    then done (pc' + branch_immediate_size, stack')
    else branch code pc' stack' arity

unfoldable pub handle_br_table : Code → ℕ → OperandStack → Run (ℕ × OperandStack)
unfolding read branch pop
handle_br_table code pc stack = read 4 code.instructions pc then λ (br_table_size, pc₁).
    read 4 code.instructions pc₁ then λ (arity, pc₂). pop stack then λ (popped, stack').
    let br_table_idx = value_as 32 popped in
    let label = if ltb br_table_idx br_table_size then br_table_idx else br_table_size in
    branch code (pc₂ + label * branch_immediate_size) stack' arity

-- The end of `call` and of `call_indirect`.
unfoldable pub continue_call :
    Call → FuncType → ℕ → ℕ → ℕ → OperandStack → Frame → Store → Outcome Next
unfolding invoke_function
continue_call call func_type func_idx instance pc stack frame store =
    invoke_function call func_type func_idx instance frame.depth stack store
    after λ (stack', store'). gives (go_on (record { pc = pc; stack = stack'; store = store' }))

-- The type and the index of the function that `call` names, and the position behind it.
unfoldable pub direct_callee : Frame → Machine → Run (FuncType × ℕ × ℕ)
unfolding read get_function_type
direct_callee frame m = read 4 frame.code.instructions m.pc then λ (called_func_idx, pc').
    get_instance m.store frame.instance then λ instance.
    present (get_function_type instance.module_of called_func_idx) then λ called_func_type.
    done (called_func_type, called_func_idx, pc')

unfoldable pub handle_call : Call → Handler
unfolding direct_callee continue_call
handle_call call frame m =
    in_store m.store (direct_callee frame m) after λ (func_type, func_idx, pc').
    continue_call call func_type func_idx frame.instance pc' m.stack frame m.store

-- The type, the index and the instance of the function that a table element names, where the type is
-- the one that is expected.
unfoldable pub called_function : Store → Instance → FuncType → ℕ → Run (FuncType × ℕ × ℕ)
unfolding get_function_type same_functype
called_function store instance expected_type elem_idx =
    pointee store.tables instance.table then λ table.
    or_trap (get_elem? table elem_idx) then λ called_func.
    or_trap called_func.instance then λ called. get_instance store called then λ called_instance.
    present (get_function_type called_instance.module_of called_func.func_idx) then λ actual_type.
    if same_functype expected_type actual_type
    then done (actual_type, called_func.func_idx, called)
    else trapped

-- The function that `call_indirect` finds, the position and the stack.
unfoldable pub indirect_callee : Frame → Machine → Run ((FuncType × ℕ × ℕ) × ℕ × OperandStack)
unfolding read pop called_function
indirect_callee frame m = get_instance m.store frame.instance then λ instance.
    read 4 frame.code.instructions m.pc then λ (expected_type_idx, pc').
    present (get_elem? instance.module_of.typesec expected_type_idx) then λ expected_type.
    pop m.stack then λ (elem_idx, stack').
    called_function m.store instance expected_type (value_as 32 elem_idx) then λ called.
    done (called, pc', stack')

unfoldable pub handle_call_indirect : Call → Handler
unfolding indirect_callee continue_call
handle_call_indirect call frame m =
    in_store m.store (indirect_callee frame m) after λ ((func_type, func_idx, called), pc', stack').
    continue_call call func_type func_idx called pc' stack' frame m.store

-- `drop`
unfoldable pub handle_drop : OperandStack → Run OperandStack
unfolding pop
handle_drop stack = pop stack then λ (value, stack'). done stack'

unfoldable pub handle_select : OperandStack → Run OperandStack
unfolding pop push
handle_select stack = pop stack then λ (condition, stack₁). pop stack₁ then λ (val2, stack₂).
    pop stack₂ then λ (val1, stack₃).
    if value_as 32 condition == 0 then push val2 stack₃ else push val1 stack₃

unfoldable pub handle_local_get : Code → ℕ → OperandStack → Run (ℕ × OperandStack)
unfolding read get_local push
handle_local_get code pc stack = read 4 code.instructions pc then λ (idx, pc').
    get_local idx stack then λ value. push value stack then λ stack'. done (pc', stack')

unfoldable pub handle_local_set : Code → ℕ → OperandStack → Run (ℕ × OperandStack)
unfolding read set_local pop
handle_local_set code pc stack = read 4 code.instructions pc then λ (idx, pc').
    pop stack then λ (value, stack'). set_local idx value stack' then λ stack''. done (pc', stack'')

unfoldable pub handle_local_tee : Code → ℕ → OperandStack → Run (ℕ × OperandStack)
unfolding read set_local top
handle_local_tee code pc stack = read 4 code.instructions pc then λ (idx, pc').
    top stack then λ value. set_local idx value stack then λ stack'. done (pc', stack')

-- `i32_const` and `f32_const` have 4 bytes, `i64_const` and `f64_const` 8.
unfoldable pub handle_const : ℕ → Code → ℕ → OperandStack → Run (ℕ × OperandStack)
unfolding read push
handle_const number code pc stack = read number code.instructions pc then λ (value, pc').
    push value stack then λ stack'. done (pc', stack')
