-- ===== src/Execute/Depth.antt =====
-- The depth at which the code that lib/fizzy/execute.cpp interprets calls host functions.
use fizzy.Common.{
  ℕ, zero, suc, ◌+◌, ◌≤◌, ◌<◌, ◌≡◌, refl, arith, List, [], ◌∷◌, ◌⊎◌, inl, inr, none, some, ◌==◌,
  leb, ◌++◌, take, drop, length, present, require, get_elem?, Bool-cases,
}
use fizzy.Types.{FuncType, Code}
use fizzy.Stack.{OperandStack, operand_stack}
use fizzy.Module.{get_function_type}
use fizzy.Instance.{
  Store, ExecuteFunction, wasm_function, host_function, get_instance, ExternalFunction,
}
use fizzy.Execute.{
  find_case, handlers, other_cases, step, loop, execute_function, execute_code, execute,
  call_stack_limit, find_body, end_round, execute_body,
}
use fizzy.Execute.State.{
  Outcome, gives, traps, failed, exhausted, ◌after◌, Call, HostCall, Platform, Frame, Machine, Next,
  go_on, finish, Handler, invoke_function, in_store,
}
use fizzy.Execute.Control.{
  continue_call, direct_callee, indirect_callee, handle_call, handle_call_indirect,
}

after_same {ℓ κ} :
    {A : Type ℓ} {B : Type κ} {o o' : Outcome A} {f f' : A → Outcome B}
    → o ≡ o'
    → ((a : A) → f a ≡ f' a)
    → (o after f) ≡ (o' after f')
after_same {o = gives a} {f' = f'} e h = rw (← e) (h a)
after_same {o = traps store} e h = rw (← e) refl
after_same {o = failed} e h = rw (← e) refl
after_same {o = exhausted} e h = rw (← e) refl

-- Two calls that do the same at a depth.
abbrev SameAt : ℕ → Call → Call → Type 0
SameAt depth call call' =
    (instance func_idx : ℕ) (args : List ℕ) (store : Store)
    → call instance func_idx args depth store ≡ call' instance func_idx args depth store

-- Other host functions.
abbrev pub with_hosts : Platform → (ℕ → HostCall) → Platform
with_hosts p other = record p { host_call = other }

-- The host functions do what the others do at every depth from `low` to below the limit.
abbrev pub SameHosts : Platform → (ℕ → HostCall) → ℕ → Type 0
SameHosts p other low =
    (f caller depth : ℕ) (args : List ℕ) (store : Store)
    → low ≤ depth
    → depth < call_stack_limit
    → p.host_call f caller args depth store ≡ other f caller args depth store

module _ (p : Platform) (other : ℕ → HostCall) (call call' : Call) (frame : Frame)
    (h : SameAt frame.depth call call') where
  continue_call_same :
      (func_type : FuncType) (func_idx instance pc : ℕ) (stack : OperandStack) (store : Store)
      → continue_call call func_type func_idx instance pc stack frame store
        ≡ continue_call call' func_type func_idx instance pc stack frame store
  unfolding continue_call invoke_function
  continue_call_same func_type func_idx instance pc stack store =
      after_same (after_same refl λ args. after_same (h instance func_idx args store) λ r. refl)
        λ r. refl

  handle_call_same : (m : Machine) → handle_call call frame m ≡ handle_call call' frame m
  unfolding handle_call
  handle_call_same m =
      after_same {o = in_store m.store (direct_callee frame m)} refl λ (func_type, func_idx, pc').
        continue_call_same func_type func_idx frame.instance pc' m.stack m.store

  handle_call_indirect_same :
      (m : Machine) → handle_call_indirect call frame m ≡ handle_call_indirect call' frame m
  unfolding handle_call_indirect
  handle_call_indirect_same m =
      after_same {o = in_store m.store (indirect_callee frame m)} refl
        λ ((func_type, func_idx, called), pc', stack').
          continue_call_same func_type func_idx called pc' stack' m.store

  -- The same opcodes, and handlers that do the same in the frame.
  abbrev SameCases : List (ℕ × Handler) → List (ℕ × Handler) → Type 0
  SameCases [] [] = Unit {0}
  SameCases [] (c' ∷ cs') = ⊥
  SameCases (c ∷ cs) [] = ⊥
  SameCases (c ∷ cs) (c' ∷ cs') =
      (c.0 ≡ c'.0) × ((m : Machine) → c.1 frame m ≡ c'.1 frame m) × SameCases cs cs'

  -- Cases that no call changes.
  shared-SameCases :
      (shared cs cs' : List (ℕ × Handler))
      → SameCases cs cs'
      → SameCases (shared ++ cs) (shared ++ cs')
  shared-SameCases [] cs cs' r = r
  shared-SameCases (c ∷ shared) cs cs' r = (refl, (λ m. refl), shared-SameCases shared cs cs' r)

  handlers-SameCases : SameCases (handlers p call) (handlers (with_hosts p other) call')
  unfolding handlers
  handlers-SameCases =
      shared-SameCases (take 11 (handlers p call)) (drop 11 (handlers p call))
        (drop 11 (handlers p call'))
        (
          refl,
          handle_call_same,
          (refl, handle_call_indirect_same, shared-SameCases (drop 13 (handlers p call)) [] [] tt),
        )

  find_case_same :
      (cases cases' : List (ℕ × Handler)) (opcode : ℕ) (m : Machine) (default : Outcome Next)
      → SameCases cases cases'
      → elim (find_case cases opcode) [ some k ↦ k frame m | none ↦ default ]
        ≡ elim (find_case cases' opcode) [ some k ↦ k frame m | none ↦ default ]
  find_case_same [] [] opcode m default r = refl
  find_case_same [] (c' ∷ cs') opcode m default r = absurd r
  find_case_same (c ∷ cs) [] opcode m default r = absurd r
  find_case_same ((o, k) ∷ cs) ((o', k') ∷ cs') opcode m default (e, same, r) =
      let ih = find_case_same cs cs' opcode m default r in
      rw (← e) (elim (Bool-cases (o == opcode)) [
        | inl found ↦ rw found (same m)
        | inr later ↦ rw later ih
      ])

  step_same : (m : Machine) → step p call frame m ≡ step (with_hosts p other) call' frame m
  unfolding step other_cases
  step_same m =
      after_same {o = in_store m.store (present (get_elem? frame.code.instructions m.pc))} refl
        λ instruction.
          find_case_same (handlers p call) (handlers (with_hosts p other) call') instruction
            (record m { pc = m.pc + 1 })
            (other_cases p instruction frame (record m { pc = m.pc + 1 })) handlers-SameCases

  end_round_same :
      (rest rest' : Machine → Outcome Machine) (next : Next)
      → ((m : Machine) → rest m ≡ rest' m)
      → end_round rest next ≡ end_round rest' next
  end_round_same rest rest' (finish m) ih = refl
  end_round_same rest rest' (go_on m) ih = ih m

  loop_same :
      (rounds : ℕ) (m : Machine)
      → loop p call rounds frame m ≡ loop (with_hosts p other) call' rounds frame m
  unfolding loop
  loop_same zero m = refl
  loop_same (suc rounds) m = after_same (step_same m) λ next.
      end_round_same (λ m'. loop p call rounds frame m')
        (λ m'. loop (with_hosts p other) call' rounds frame m') next λ m'. loop_same rounds m'

module _ (p : Platform) (other : ℕ → HostCall) where
  -- The code runs one level deeper than the call that runs it.
  execute_code_same :
      (call call' : Call) (rounds : ℕ) (func_type : FuncType) (code : Code) (instance : ℕ)
      (args : List ℕ) (depth : ℕ) (store : Store)
      → SameAt (depth + 1) call call'
      → execute_code p call rounds func_type code instance args depth store
        ≡ execute_code (with_hosts p other) call' rounds func_type code instance args depth store
  unfolding execute_code
  execute_code_same call call' rounds func_type code instance args depth store h =
      let frame : Frame = record { code = code; instance = instance; depth = depth + 1 } in
      after_same
        {o = in_store store (
          operand_stack p.junk args (length func_type.inputs) code.local_count
            code.max_stack_height)}
        refl
        λ stack.
          after_same
            (loop_same p other call call' frame h rounds
              (record { pc = 0; stack = stack; store = store }))
            λ m. refl

  execute_body_same :
      (call call' : Call) (rounds : ℕ) (func_type : FuncType) (instance : ℕ) (args : List ℕ)
      (depth : ℕ) (store : Store) (body : ExternalFunction ⊎ Code)
      → SameHosts p other depth
      → depth < call_stack_limit
      → SameAt depth call call'
      → SameAt (depth + 1) call call'
      → execute_body p call rounds func_type instance args depth store body
        ≡ execute_body (with_hosts p other) call' rounds func_type instance args depth store body
  unfolding execute_body execute_function
  execute_body_same call call' rounds func_type instance args depth store (inr code) h d e e' =
      execute_code_same call call' rounds func_type code instance args depth store e'
  execute_body_same call call' rounds func_type instance args depth store (inl external) h d e e' =
      called external.function
    where
      called :
          (f : ExecuteFunction)
          → execute_function p call f instance args depth store
            ≡ execute_function (with_hosts p other) call' f instance args depth store
      called (wasm_function callee func_idx) = e callee func_idx args store
      called (host_function f) = h f instance depth args store (omega arith) d

  execute_same :
      (calls low : ℕ)
      → SameHosts p other low
      → (depth : ℕ) → low ≤ depth
      → SameAt depth (execute p calls) (execute (with_hosts p other) calls)
  unfolding execute
  execute_same zero low h depth b instance func_idx args store = refl
  execute_same (suc calls) low h depth b instance func_idx args store =
      let deeper = execute_same calls low h in
      elim (Bool-cases (leb call_stack_limit depth)) [
        | inl limit ↦ rw limit refl
        | inr below ↦ rw below (
            after_same {o = in_store store (get_instance store instance)} refl λ i.
              after_same {o = in_store store (present (get_function_type i.module_of func_idx))}
                refl
                λ func_type.
                  after_same
                    {o = in_store store (
                      require
                        (length i.module_of.imported_function_types == length i.imported_functions)
                        (find_body i func_idx))}
                    refl
                    λ body.
                      execute_body_same (execute p calls) (execute (with_hosts p other) calls) calls
                        func_type instance args depth store body
                        (λ f caller d args' store' above.
                          h f caller d args' store' (omega (arith, b, above)))
                        (ground (arith, below)) (deeper depth b)
                        (deeper (depth + 1) (omega (arith, b))))
      ]

-- Code that a function at some depth of calls runs, and all that it calls, call host functions
-- only at depths above that depth and below the limit of 2048 calls: where two sets of host
-- functions do the same at those depths, the code does the same with the one as with the other,
-- whatever the two do elsewhere, with any bounds on the nesting of calls and the rounds of loops.
pub execute_code-SameHosts :
    (p : Platform) (other : ℕ → HostCall) (calls rounds : ℕ) (func_type : FuncType) (code : Code)
    (instance : ℕ) (args : List ℕ) (depth : ℕ) (store : Store)
    → SameHosts p other (depth + 1)
    → execute_code p (execute p calls) rounds func_type code instance args depth store
      ≡ execute_code
          (with_hosts p other)
          (execute (with_hosts p other) calls)
          rounds
          func_type
          code
          instance
          args
          depth
          store
execute_code-SameHosts p other calls rounds func_type code instance args depth store h =
    execute_code_same p other (execute p calls) (execute (with_hosts p other) calls) rounds
      func_type code instance args depth store
      (execute_same p other calls (depth + 1) h (depth + 1) (omega arith))
