-- ===== src/Instructions.antt =====
-- lib/fizzy/instructions.cpp: the tables that the parser of expressions reads, with one row for each
-- byte. The rows above 0xbf are not written out there, so they are value-initialised.
pub mod Rows
mod Control
mod Numeric
mod Tests
use fizzy.Common.{ℕ, List, [], ◌∷◌, ◌++◌, Option, none, some, get_elem?}
use fizzy.Instructions.Rows.{InstructionType, unassigned}
use fizzy.Instructions.Control.{control_types}
use fizzy.Instructions.Numeric.{numeric_types}

-- The row of a table, where the last rows are all the same.
abbrev pub row_or {ℓ} : {A : Type ℓ} → A → Option A → A
row_or last none = last
row_or last (some row) = row

unfoldable pub instruction_type : ℕ → InstructionType
instruction_type opcode = row_or unassigned (get_elem? (control_types ++ numeric_types) opcode)

-- The rows 0x00 to 0x44.
abbrev control_aligns : List ℕ
control_aligns =
    0 ∷ 0 ∷ 0 ∷ 0 ∷ 0 ∷ 0 ∷ 0 ∷ 0 ∷ 0 ∷ 0 ∷ 0 ∷ 0 ∷ 0 ∷ 0 ∷ 0 ∷ 0 ∷ 0 ∷ 0 ∷ 0 ∷ 0 ∷ 0 ∷ 0 ∷ 0 ∷ 0
    ∷ 0 ∷ 0 ∷ 0 ∷ 0 ∷ 0 ∷ 0 ∷ 0 ∷ 0 ∷ 0 ∷ 0 ∷ 0 ∷ 0 ∷ 0 ∷ 0 ∷ 0 ∷ 0 ∷ 2 ∷ 3 ∷ 2 ∷ 3 ∷ 0 ∷ 0 ∷ 1 ∷ 1
    ∷ 0 ∷ 0 ∷ 1 ∷ 1 ∷ 2 ∷ 2 ∷ 2 ∷ 3 ∷ 2 ∷ 3 ∷ 0 ∷ 1 ∷ 0 ∷ 1 ∷ 2 ∷ 0 ∷ 0 ∷ 0 ∷ 0 ∷ 0 ∷ 0 ∷ []

-- The rows 0x45 to 0xbf.
abbrev numeric_aligns : List ℕ
numeric_aligns =
    0 ∷ 0 ∷ 0 ∷ 0 ∷ 0 ∷ 0 ∷ 0 ∷ 0 ∷ 0 ∷ 0 ∷ 0 ∷ 0 ∷ 0 ∷ 0 ∷ 0 ∷ 0 ∷ 0 ∷ 0 ∷ 0 ∷ 0 ∷ 0 ∷ 0 ∷ 0 ∷ 0
    ∷ 0 ∷ 0 ∷ 0 ∷ 0 ∷ 0 ∷ 0 ∷ 0 ∷ 0 ∷ 0 ∷ 0 ∷ 0 ∷ 0 ∷ 0 ∷ 0 ∷ 0 ∷ 0 ∷ 0 ∷ 0 ∷ 0 ∷ 0 ∷ 0 ∷ 0 ∷ 0 ∷ 0
    ∷ 0 ∷ 0 ∷ 0 ∷ 0 ∷ 0 ∷ 0 ∷ 0 ∷ 0 ∷ 0 ∷ 0 ∷ 0 ∷ 0 ∷ 0 ∷ 0 ∷ 0 ∷ 0 ∷ 0 ∷ 0 ∷ 0 ∷ 0 ∷ 0 ∷ 0 ∷ 0 ∷ 0
    ∷ 0 ∷ 0 ∷ 0 ∷ 0 ∷ 0 ∷ 0 ∷ 0 ∷ 0 ∷ 0 ∷ 0 ∷ 0 ∷ 0 ∷ 0 ∷ 0 ∷ 0 ∷ 0 ∷ 0 ∷ 0 ∷ 0 ∷ 0 ∷ 0 ∷ 0 ∷ 0 ∷ 0
    ∷ 0 ∷ 0 ∷ 0 ∷ 0 ∷ 0 ∷ 0 ∷ 0 ∷ 0 ∷ 0 ∷ 0 ∷ 0 ∷ 0 ∷ 0 ∷ 0 ∷ 0 ∷ 0 ∷ 0 ∷ 0 ∷ 0 ∷ 0 ∷ 0 ∷ 0 ∷ 0 ∷ 0
    ∷ 0 ∷ 0 ∷ 0 ∷ []

unfoldable pub instruction_max_align : ℕ → ℕ
instruction_max_align opcode = row_or 0 (get_elem? (control_aligns ++ numeric_aligns) opcode)
