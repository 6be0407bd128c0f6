-- ===== src/Instructions/Control.antt =====
-- The rows 0x00 to 0x44 of the table of instruction types in lib/fizzy/instructions.cpp: control,
-- parametric, variable and memory instructions, and the constants.
use fizzy.Common.{List, [], ◌∷◌}
use fizzy.Types.ValType.{i32, i64, f32, f64}
use fizzy.Instructions.Rows.{InstructionType, ◌⇒◌, nullary, unassigned}

abbrev pub control_types : List InstructionType
control_types =
    nullary
    ∷ nullary
    ∷ nullary
    ∷ nullary
    ∷ ((i32 ∷ []) ⇒ [])
    ∷ nullary
    ∷ unassigned
    ∷ unassigned
    ∷ unassigned
    ∷ unassigned
    ∷ unassigned
    ∷ nullary
    ∷ nullary
    ∷ ((i32 ∷ []) ⇒ [])
    ∷ ((i32 ∷ []) ⇒ [])
    ∷ nullary
    ∷ nullary
    ∷ ((i32 ∷ []) ⇒ [])
    ∷ unassigned
    ∷ unassigned
    ∷ unassigned
    ∷ unassigned
    ∷ unassigned
    ∷ unassigned
    ∷ unassigned
    ∷ unassigned
    ∷ nullary
    ∷ ((i32 ∷ []) ⇒ [])
    ∷ unassigned
    ∷ unassigned
    ∷ unassigned
    ∷ unassigned
    ∷ nullary
    ∷ nullary
    ∷ nullary
    ∷ nullary
    ∷ nullary
    ∷ unassigned
    ∷ unassigned
    ∷ unassigned
    ∷ ((i32 ∷ []) ⇒ (i32 ∷ []))
    ∷ ((i32 ∷ []) ⇒ (i64 ∷ []))
    ∷ ((i32 ∷ []) ⇒ (f32 ∷ []))
    ∷ ((i32 ∷ []) ⇒ (f64 ∷ []))
    ∷ ((i32 ∷ []) ⇒ (i32 ∷ []))
    ∷ ((i32 ∷ []) ⇒ (i32 ∷ []))
    ∷ ((i32 ∷ []) ⇒ (i32 ∷ []))
    ∷ ((i32 ∷ []) ⇒ (i32 ∷ []))
    ∷ ((i32 ∷ []) ⇒ (i64 ∷ []))
    ∷ ((i32 ∷ []) ⇒ (i64 ∷ []))
    ∷ ((i32 ∷ []) ⇒ (i64 ∷ []))
    ∷ ((i32 ∷ []) ⇒ (i64 ∷ []))
    ∷ ((i32 ∷ []) ⇒ (i64 ∷ []))
    ∷ ((i32 ∷ []) ⇒ (i64 ∷ []))
    ∷ ((i32 ∷ i32 ∷ []) ⇒ [])
    ∷ ((i32 ∷ i64 ∷ []) ⇒ [])
    ∷ ((i32 ∷ f32 ∷ []) ⇒ [])
    ∷ ((i32 ∷ f64 ∷ []) ⇒ [])
    ∷ ((i32 ∷ i32 ∷ []) ⇒ [])
    ∷ ((i32 ∷ i32 ∷ []) ⇒ [])
    ∷ ((i32 ∷ i64 ∷ []) ⇒ [])
    ∷ ((i32 ∷ i64 ∷ []) ⇒ [])
    ∷ ((i32 ∷ i64 ∷ []) ⇒ [])
    ∷ ([] ⇒ (i32 ∷ []))
    ∷ ((i32 ∷ []) ⇒ (i32 ∷ []))
    ∷ ([] ⇒ (i32 ∷ []))
    ∷ ([] ⇒ (i64 ∷ []))
    ∷ ([] ⇒ (f32 ∷ []))
    ∷ ([] ⇒ (f64 ∷ []))
    ∷ []
