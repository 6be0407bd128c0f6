-- ===== src/Instructions/Numeric.antt =====
-- The rows 0x45 to 0xbf of the table of instruction types in lib/fizzy/instructions.cpp: the numeric
-- instructions.
use fizzy.Common.{List, [], ◌∷◌}
use fizzy.Types.ValType.{i32, i64, f32, f64}
use fizzy.Instructions.Rows.{InstructionType, ◌⇒◌}

abbrev pub numeric_types : List InstructionType
numeric_types =
    ((i32 ∷ []) ⇒ (i32 ∷ []))
    ∷ ((i32 ∷ i32 ∷ []) ⇒ (i32 ∷ []))
    ∷ ((i32 ∷ i32 ∷ []) ⇒ (i32 ∷ []))
    ∷ ((i32 ∷ i32 ∷ []) ⇒ (i32 ∷ []))
    ∷ ((i32 ∷ i32 ∷ []) ⇒ (i32 ∷ []))
    ∷ ((i32 ∷ i32 ∷ []) ⇒ (i32 ∷ []))
    ∷ ((i32 ∷ i32 ∷ []) ⇒ (i32 ∷ []))
    ∷ ((i32 ∷ i32 ∷ []) ⇒ (i32 ∷ []))
    ∷ ((i32 ∷ i32 ∷ []) ⇒ (i32 ∷ []))
    ∷ ((i32 ∷ i32 ∷ []) ⇒ (i32 ∷ []))
    ∷ ((i32 ∷ i32 ∷ []) ⇒ (i32 ∷ []))
    ∷ ((i64 ∷ []) ⇒ (i32 ∷ []))
    ∷ ((i64 ∷ i64 ∷ []) ⇒ (i32 ∷ []))
    ∷ ((i64 ∷ i64 ∷ []) ⇒ (i32 ∷ []))
    ∷ ((i64 ∷ i64 ∷ []) ⇒ (i32 ∷ []))
    ∷ ((i64 ∷ i64 ∷ []) ⇒ (i32 ∷ []))
    ∷ ((i64 ∷ i64 ∷ []) ⇒ (i32 ∷ []))
    ∷ ((i64 ∷ i64 ∷ []) ⇒ (i32 ∷ []))
    ∷ ((i64 ∷ i64 ∷ []) ⇒ (i32 ∷ []))
    ∷ ((i64 ∷ i64 ∷ []) ⇒ (i32 ∷ []))
    ∷ ((i64 ∷ i64 ∷ []) ⇒ (i32 ∷ []))
    ∷ ((i64 ∷ i64 ∷ []) ⇒ (i32 ∷ []))
    ∷ ((f32 ∷ f32 ∷ []) ⇒ (i32 ∷ []))
    ∷ ((f32 ∷ f32 ∷ []) ⇒ (i32 ∷ []))
    ∷ ((f32 ∷ f32 ∷ []) ⇒ (i32 ∷ []))
    ∷ ((f32 ∷ f32 ∷ []) ⇒ (i32 ∷ []))
    ∷ ((f32 ∷ f32 ∷ []) ⇒ (i32 ∷ []))
    ∷ ((f32 ∷ f32 ∷ []) ⇒ (i32 ∷ []))
    ∷ ((f64 ∷ f64 ∷ []) ⇒ (i32 ∷ []))
    ∷ ((f64 ∷ f64 ∷ []) ⇒ (i32 ∷ []))
    ∷ ((f64 ∷ f64 ∷ []) ⇒ (i32 ∷ []))
    ∷ ((f64 ∷ f64 ∷ []) ⇒ (i32 ∷ []))
    ∷ ((f64 ∷ f64 ∷ []) ⇒ (i32 ∷ []))
    ∷ ((f64 ∷ f64 ∷ []) ⇒ (i32 ∷ []))
    ∷ ((i32 ∷ []) ⇒ (i32 ∷ []))
    ∷ ((i32 ∷ []) ⇒ (i32 ∷ []))
    ∷ ((i32 ∷ []) ⇒ (i32 ∷ []))
    ∷ ((i32 ∷ i32 ∷ []) ⇒ (i32 ∷ []))
    ∷ ((i32 ∷ i32 ∷ []) ⇒ (i32 ∷ []))
    ∷ ((i32 ∷ i32 ∷ []) ⇒ (i32 ∷ []))
    ∷ ((i32 ∷ i32 ∷ []) ⇒ (i32 ∷ []))
    ∷ ((i32 ∷ i32 ∷ []) ⇒ (i32 ∷ []))
    ∷ ((i32 ∷ i32 ∷ []) ⇒ (i32 ∷ []))
    ∷ ((i32 ∷ i32 ∷ []) ⇒ (i32 ∷ []))
    ∷ ((i32 ∷ i32 ∷ []) ⇒ (i32 ∷ []))
    ∷ ((i32 ∷ i32 ∷ []) ⇒ (i32 ∷ []))
    ∷ ((i32 ∷ i32 ∷ []) ⇒ (i32 ∷ []))
    ∷ ((i32 ∷ i32 ∷ []) ⇒ (i32 ∷ []))
    ∷ ((i32 ∷ i32 ∷ []) ⇒ (i32 ∷ []))
    ∷ ((i32 ∷ i32 ∷ []) ⇒ (i32 ∷ []))
    ∷ ((i32 ∷ i32 ∷ []) ⇒ (i32 ∷ []))
    ∷ ((i32 ∷ i32 ∷ []) ⇒ (i32 ∷ []))
    ∷ ((i64 ∷ []) ⇒ (i64 ∷ []))
    ∷ ((i64 ∷ []) ⇒ (i64 ∷ []))
    ∷ ((i64 ∷ []) ⇒ (i64 ∷ []))
    ∷ ((i64 ∷ i64 ∷ []) ⇒ (i64 ∷ []))
    ∷ ((i64 ∷ i64 ∷ []) ⇒ (i64 ∷ []))
    ∷ ((i64 ∷ i64 ∷ []) ⇒ (i64 ∷ []))
    ∷ ((i64 ∷ i64 ∷ []) ⇒ (i64 ∷ []))
    ∷ ((i64 ∷ i64 ∷ []) ⇒ (i64 ∷ []))
    ∷ ((i64 ∷ i64 ∷ []) ⇒ (i64 ∷ []))
    ∷ ((i64 ∷ i64 ∷ []) ⇒ (i64 ∷ []))
    ∷ ((i64 ∷ i64 ∷ []) ⇒ (i64 ∷ []))
    ∷ ((i64 ∷ i64 ∷ []) ⇒ (i64 ∷ []))
    ∷ ((i64 ∷ i64 ∷ []) ⇒ (i64 ∷ []))
    ∷ ((i64 ∷ i64 ∷ []) ⇒ (i64 ∷ []))
    ∷ ((i64 ∷ i64 ∷ []) ⇒ (i64 ∷ []))
    ∷ ((i64 ∷ i64 ∷ []) ⇒ (i64 ∷ []))
    ∷ ((i64 ∷ i64 ∷ []) ⇒ (i64 ∷ []))
    ∷ ((i64 ∷ i64 ∷ []) ⇒ (i64 ∷ []))
    ∷ ((f32 ∷ []) ⇒ (f32 ∷ []))
    ∷ ((f32 ∷ []) ⇒ (f32 ∷ []))
    ∷ ((f32 ∷ []) ⇒ (f32 ∷ []))
    ∷ ((f32 ∷ []) ⇒ (f32 ∷ []))
    ∷ ((f32 ∷ []) ⇒ (f32 ∷ []))
    ∷ ((f32 ∷ []) ⇒ (f32 ∷ []))
    ∷ ((f32 ∷ []) ⇒ (f32 ∷ []))
    ∷ ((f32 ∷ f32 ∷ []) ⇒ (f32 ∷ []))
    ∷ ((f32 ∷ f32 ∷ []) ⇒ (f32 ∷ []))
    ∷ ((f32 ∷ f32 ∷ []) ⇒ (f32 ∷ []))
    ∷ ((f32 ∷ f32 ∷ []) ⇒ (f32 ∷ []))
    ∷ ((f32 ∷ f32 ∷ []) ⇒ (f32 ∷ []))
    ∷ ((f32 ∷ f32 ∷ []) ⇒ (f32 ∷ []))
    ∷ ((f32 ∷ f32 ∷ []) ⇒ (f32 ∷ []))
    ∷ ((f64 ∷ []) ⇒ (f64 ∷ []))
    ∷ ((f64 ∷ []) ⇒ (f64 ∷ []))
    ∷ ((f64 ∷ []) ⇒ (f64 ∷ []))
    ∷ ((f64 ∷ []) ⇒ (f64 ∷ []))
    ∷ ((f64 ∷ []) ⇒ (f64 ∷ []))
    ∷ ((f64 ∷ []) ⇒ (f64 ∷ []))
    ∷ ((f64 ∷ []) ⇒ (f64 ∷ []))
    ∷ ((f64 ∷ f64 ∷ []) ⇒ (f64 ∷ []))
    ∷ ((f64 ∷ f64 ∷ []) ⇒ (f64 ∷ []))
    ∷ ((f64 ∷ f64 ∷ []) ⇒ (f64 ∷ []))
    ∷ ((f64 ∷ f64 ∷ []) ⇒ (f64 ∷ []))
    ∷ ((f64 ∷ f64 ∷ []) ⇒ (f64 ∷ []))
    ∷ ((f64 ∷ f64 ∷ []) ⇒ (f64 ∷ []))
    ∷ ((f64 ∷ f64 ∷ []) ⇒ (f64 ∷ []))
    ∷ ((i64 ∷ []) ⇒ (i32 ∷ []))
    ∷ ((f32 ∷ []) ⇒ (i32 ∷ []))
    ∷ ((f32 ∷ []) ⇒ (i32 ∷ []))
    ∷ ((f64 ∷ []) ⇒ (i32 ∷ []))
    ∷ ((f64 ∷ []) ⇒ (i32 ∷ []))
    ∷ ((i32 ∷ []) ⇒ (i64 ∷ []))
    ∷ ((i32 ∷ []) ⇒ (i64 ∷ []))
    ∷ ((f32 ∷ []) ⇒ (i64 ∷ []))
    ∷ ((f32 ∷ []) ⇒ (i64 ∷ []))
    ∷ ((f64 ∷ []) ⇒ (i64 ∷ []))
    ∷ ((f64 ∷ []) ⇒ (i64 ∷ []))
    ∷ ((i32 ∷ []) ⇒ (f32 ∷ []))
    ∷ ((i32 ∷ []) ⇒ (f32 ∷ []))
    ∷ ((i64 ∷ []) ⇒ (f32 ∷ []))
    ∷ ((i64 ∷ []) ⇒ (f32 ∷ []))
    ∷ ((f64 ∷ []) ⇒ (f32 ∷ []))
    ∷ ((i32 ∷ []) ⇒ (f64 ∷ []))
    ∷ ((i32 ∷ []) ⇒ (f64 ∷ []))
    ∷ ((i64 ∷ []) ⇒ (f64 ∷ []))
    ∷ ((i64 ∷ []) ⇒ (f64 ∷ []))
    ∷ ((f32 ∷ []) ⇒ (f64 ∷ []))
    ∷ ((f32 ∷ []) ⇒ (i32 ∷ []))
    ∷ ((f64 ∷ []) ⇒ (i64 ∷ []))
    ∷ ((i32 ∷ []) ⇒ (f32 ∷ []))
    ∷ ((i64 ∷ []) ⇒ (f64 ∷ []))
    ∷ []
