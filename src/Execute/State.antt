-- ===== src/Execute/State.antt =====
-- The local variables of `execute` in lib/fizzy/execute.cpp, and what a step of its loop gives.
pub mod Branch
mod Tests
use fizzy.Common.{
  ℕ, ◌+◌, ◌%◌, ◌^◌, List, length, take, drop, ltb, leb, ◌==◌, if◌then◌else◌, Option, none, some,
  Bool, true, false, Run, done, trapped, broken, ◌then◌, require,
}
use fizzy.Types.{FuncType, Code}
use fizzy.Stack.{OperandStack, size, top, set_top, push, drop_items, top_items}
use fizzy.Instance.{Store}
use fizzy.Parser.Basic.{little_endian}
use fizzy.Execute.Floats.{Arithmetic}
use fizzy.Execute.Integers.{Builtins}

-- What a run of code gives. The store is kept by a trap. `failed` is an `assert` that fails or an
-- access outside of the objects of the program, and `exhausted` is a lack of fuel.
pub data Outcome {ℓ} (A : Type ℓ) : Type ℓ where
  gives : A → Outcome A
  traps : Store → Outcome A
  failed : Outcome A
  exhausted : Outcome A

infixl 5 ◌after◌
abbrev pub ◌after◌ {ℓ κ} : {A : Type ℓ} {B : Type κ} → Outcome A → (A → Outcome B) → Outcome B
o after f = elim o [
  | gives a ↦ f a
  | traps store ↦ traps store
  | failed ↦ failed
  | exhausted ↦ exhausted
]

-- A part of a step that leaves the store as it is.
abbrev pub in_store {ℓ} : {A : Type ℓ} → Store → Run A → Outcome A
in_store store r = elim r [ done a ↦ gives a | trapped ↦ traps store | broken ↦ failed ]

-- `ExecutionResult` where nothing has trapped: the value, where there is one, and the store.
abbrev pub Returned : Type 0
Returned = Option ℕ × Store

-- A call: the instance, the index of the function, the arguments and the depth of the calls.
abbrev pub Call : Type 0
Call = ℕ → ℕ → List ℕ → ℕ → Store → Outcome Returned

-- A call of a host function: the instance, the arguments and the depth of the calls.
abbrev pub HostCall : Type 0
HostCall = ℕ → List ℕ → ℕ → Store → Outcome Returned

-- What is outside of the library: the host functions by their number, whether there is
-- storage for a memory of a number of bytes and for a table of a number of elements, what the storage
-- of a stack holds before it is written, and the arithmetic of the compiler and the processor.
pub record Platform : Type 0 where
  pub host_call : ℕ → HostCall
  pub can_resize : ℕ → Bool
  pub can_allocate_table : ℕ → Bool
  pub junk : ℕ
  pub builtins : Builtins
  pub single_arithmetic : Arithmetic
  pub double_arithmetic : Arithmetic
  pub demote : ℕ → ℕ
  pub promote : ℕ → ℕ

-- What a call does not change.
pub record Frame : Type 0 where
  pub code : Code
  pub instance : ℕ
  pub depth : ℕ

pub record Machine : Type 0 where
  pub pc : ℕ
  pub stack : OperandStack
  pub store : Store

-- A handler goes on with the loop, or ends it at the final `end`.
pub data Next : Type 0 where
  go_on finish : Machine → Next

abbrev pub Handler : Type 0
Handler = Frame → Machine → Outcome Next

-- `read` of a value of `size` bytes, with the position behind it.
unfoldable pub read : ℕ → List ℕ → ℕ → Run (ℕ × ℕ)
unfolding little_endian
read size instructions pc =
    require (leb (pc + size) (length instructions))
      (done (little_endian (take size (drop pc instructions)), pc + size))

-- The position that a branch goes to, and the stack.
unfoldable pub branch : Code → ℕ → OperandStack → ℕ → Run (ℕ × OperandStack)
unfolding read size top set_top drop_items
branch code pc stack arity = read 4 code.instructions pc then λ (code_offset, pc₁).
    read 4 code.instructions pc₁ then λ (stack_drop, pc₂). require (ltb stack_drop (2 ^ 31)) (
      require (leb ((stack_drop + arity) % 2 ^ 32) (size stack)) (
        if arity == 0
        then (drop_items stack_drop stack then λ stack'. done (code_offset, stack'))
        else require (arity == 1) (
            top stack then λ result. drop_items stack_drop stack then λ stack'.
            set_top result stack' then λ stack''. done (code_offset, stack''))))

abbrev pub has_value : Option ℕ → Bool
has_value result = elim result [ none ↦ false | some v ↦ true ]

-- What the result of a call does to the stack of the caller.
unfoldable pub push_returned : FuncType → OperandStack → Option ℕ → Run OperandStack
unfolding drop_items push
push_returned func_type stack result = drop_items (length func_type.inputs) stack then λ stack'.
    require (leb (length func_type.outputs) 1) (elim result [
      | none ↦ require (length func_type.outputs == 0) (done stack')
      | some value ↦ require (length func_type.outputs == 1) (push value stack')
    ])

unfoldable pub invoke_function :
    Call → FuncType → ℕ → ℕ → ℕ → OperandStack → Store → Outcome (OperandStack × Store)
unfolding top_items push_returned
invoke_function call func_type func_idx instance depth stack store =
    in_store store (top_items (length func_type.inputs) stack) after λ call_args.
    call instance func_idx call_args depth store after λ (result, store').
    in_store store' (push_returned func_type stack result) after λ stack'. gives (stack', store')
