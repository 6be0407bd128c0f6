-- ===== src/Instructions/Rows.antt =====
-- A row of the tables in lib/fizzy/instructions.cpp: what an instruction takes from the stack, and
-- what it leaves there (lib/fizzy/instructions.hpp).
use fizzy.Common.{List, []}
use fizzy.Types.{ValType}

pub record InstructionType : Type 0 where
  pub inputs : List ValType
  pub outputs : List ValType

infix 3 ◌⇒◌
abbrev pub ◌⇒◌ : List ValType → List ValType → InstructionType
inputs ⇒ outputs = record { inputs = inputs; outputs = outputs }

-- `{{}, {}}`
abbrev pub nullary : InstructionType
nullary = [] ⇒ []

-- `{}`, the row of a byte that is no instruction.
abbrev pub unassigned : InstructionType
unassigned = [] ⇒ []
