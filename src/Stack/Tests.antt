-- ===== src/Stack/Tests.antt =====
-- Runs of `OperandStack` of lib/fizzy/stack.hpp, and the theorems at concrete inputs.
use fizzy.Common.{ℕ, ◌≡◌, ◌≤◌, refl, arith, List, [], ◌∷◌, done}
use fizzy.Stack.{OperandStack, operand_stack}
use fizzy.Stack.Refines.{Operands, Represents}
use fizzy.Stack.Meaning.{Operation, pushes, gets_local, pops, sets_top, operate_all, meaning_all}
use fizzy.Stack.Traces.{operate_all-meaning_all}
use fizzy.Stack.Start.{initial_locals, filler, operand_stack-Represents}

-- One local, no operand, room for two.
abbrev one_local : OperandStack
one_local = record { storage = 5 ∷ 0 ∷ 0 ∷ []; bottom = 1; top_index = 0 }

abbrev one_local_operands : Operands
one_local_operands = record { locals = 5 ∷ []; items = []; room = 2 }

one_local-Represents : Represents one_local one_local_operands
one_local-Represents = record {
  spare = 0 ∷ 0 ∷ [];
  layout = refl;
  bottom_at = refl;
  some_locals = omega arith;
  top_at = refl;
  spare_room = refl;
}

abbrev some_operations : List Operation
some_operations = pushes 7 ∷ pushes 8 ∷ sets_top 9 ∷ gets_local 0 ∷ pops ∷ []

abbrev operands_after : Operands
operands_after = record { locals = 5 ∷ []; items = 7 ∷ []; room = 1 }

operate_all-meaning_all_example :
    (s' : OperandStack) × (operate_all some_operations one_local
      ≡ done (0 ∷ 0 ∷ 0 ∷ 5 ∷ 9 ∷ [], s'))
    × Represents s' operands_after
unfolding meaning_all
operate_all-meaning_all_example =
    operate_all-meaning_all some_operations one_local one_local_operands operands_after
      (0 ∷ 0 ∷ 0 ∷ 5 ∷ 9 ∷ []) one_local-Represents refl

-- Two arguments of three that stand there, one local variable, four operands at most.
operand_stack-Represents_example :
    (s : OperandStack) × (room : ℕ) × (operand_stack 77 (4 ∷ 5 ∷ 6 ∷ []) 2 1 4 ≡ done s)
    × (4 ≤ room)
    × Represents s (record {
      locals = initial_locals (filler 77 3 4) (4 ∷ 5 ∷ 6 ∷ []) 2 1;
      items = [];
      room = room;
    })
operand_stack-Represents_example = operand_stack-Represents 77 (4 ∷ 5 ∷ 6 ∷ []) 2 1 4 (omega arith)
