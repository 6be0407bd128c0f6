-- ===== src/Instructions/Tests.antt =====
-- Rows of the tables in lib/fizzy/instructions.cpp.
use fizzy.Common.{◌≡◌, refl}
use fizzy.Instructions.{instruction_type}
use fizzy.Instructions.Rows.{unassigned}

row_above : instruction_type 0xc0 ≡ unassigned
unfolding instruction_type
row_above = refl
