-- ===== src/Execute/State/Tests.antt =====
-- `branch` and the end of `invoke_function` of lib/fizzy/execute.cpp at concrete inputs.
use fizzy.Common.{ℕ, ◌+◌, ◌≡◌, refl, arith, [], ◌∷◌, some, done}
use fizzy.Types.{Code, FuncType, ValType}
use fizzy.Stack.{OperandStack}
use fizzy.Stack.Refines.{Represents}
use fizzy.Execute.Operators.Takes.{with_room}
use fizzy.Execute.State.{read, branch, push_returned}
use fizzy.Execute.State.Branch.{IsBranch, branch-Represents, push_returned-Represents}

-- One local, and the operands 4 and 2, with 4 at the top.
abbrev two_operands : OperandStack
two_operands = record { storage = 5 ∷ 2 ∷ 4 ∷ 0 ∷ []; bottom = 1; top_index = 2 }

two_operands-Represents : Represents two_operands (with_room (5 ∷ []) (4 ∷ 2 ∷ []) 1)
two_operands-Represents = record {
  spare = 0 ∷ [];
  layout = refl;
  bottom_at = refl;
  some_locals = omega arith;
  top_at = refl;
  spare_room = refl;
}

-- A branch to the offset 9 that drops one operand.
abbrev branching : Code
branching = record {
  max_stack_height = 2;
  local_count = 0;
  instructions = 9 ∷ 0 ∷ 0 ∷ 0 ∷ 1 ∷ 0 ∷ 0 ∷ 0 ∷ 0x0b ∷ [];
}

branching-IsBranch : IsBranch branching 0 9 4 8 1 two_operands (5 ∷ []) (2 ∷ []) [] 1
unfolding read
branching-IsBranch = record {
  target = refl;
  height = refl;
  drop_bound = omega arith;
  dropped_number = refl;
}

branch-Represents_example :
    (s' : OperandStack) × (branch branching 0 two_operands 1 ≡ done (9, s'))
    × Represents s' (with_room (5 ∷ []) (4 ∷ []) 2)
branch-Represents_example =
    branch-Represents branching 0 9 4 8 1 two_operands (5 ∷ []) (2 ∷ []) [] 1 (4 ∷ []) (omega arith)
      branching-IsBranch two_operands-Represents

abbrev one_to_one : FuncType
one_to_one = record { inputs = ValType.i32 ∷ []; outputs = ValType.i32 ∷ [] }

push_returned-Represents_example :
    (s' : OperandStack) × (room' : ℕ) × (push_returned one_to_one two_operands (some 7) ≡ done s')
    × (room' + 1 ≡ 1 + 1)
    × Represents s' (with_room (5 ∷ []) (7 ∷ 2 ∷ []) room')
push_returned-Represents_example =
    push_returned-Represents one_to_one two_operands (5 ∷ []) (4 ∷ []) (2 ∷ []) 1 (some 7) refl refl
      (omega arith) two_operands-Represents
