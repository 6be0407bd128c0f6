-- ===== src/Execute/Numeric/Accesses.antt =====
-- The loads and stores in the switch of lib/fizzy/execute.cpp.
use fizzy.Common.{ℕ, ◌/◌, List, [], ◌∷◌}
use fizzy.Instr
use fizzy.Common.{true, false}
use fizzy.Execute.Integers.{Scalar, extend}

-- The bytes that a load reads, and how they become a value.
abbrev pub Access : Type 0
Access = ℕ × (ℕ → ℕ)

abbrev pub int : ℕ → Scalar
int w = record { bits = w; is_signed = true }

abbrev pub uint : ℕ → Scalar
uint w = record { bits = w; is_signed = false }

-- `float` and `double`, for which `std::is_signed` holds.
abbrev pub float : ℕ → Scalar
float w = record { bits = w; is_signed = true }

-- `load_from_memory<DstT, SrcT>`, whose immediates are read by the caller.
abbrev pub access : (dst src : Scalar) → Access
access dst src = (src.bits / 8, extend dst src)

unfoldable pub load_cases : List (ℕ × Access)
unfolding extend
load_cases =
    (Instr.i32_load, access (uint 32) (uint 32))
    ∷ (Instr.i64_load, access (uint 64) (uint 64))
    ∷ (Instr.f32_load, access (float 32) (float 32))
    ∷ (Instr.f64_load, access (float 64) (float 64))
    ∷ (Instr.i32_load8_s, access (uint 32) (int 8))
    ∷ (Instr.i32_load8_u, access (uint 32) (uint 8))
    ∷ (Instr.i32_load16_s, access (uint 32) (int 16))
    ∷ (Instr.i32_load16_u, access (uint 32) (uint 16))
    ∷ (Instr.i64_load8_s, access (uint 64) (int 8))
    ∷ (Instr.i64_load8_u, access (uint 64) (uint 8))
    ∷ (Instr.i64_load16_s, access (uint 64) (int 16))
    ∷ (Instr.i64_load16_u, access (uint 64) (uint 16))
    ∷ (Instr.i64_load32_s, access (uint 64) (int 32))
    ∷ (Instr.i64_load32_u, access (uint 64) (uint 32))
    ∷ []

-- The bytes that a store writes.
abbrev pub store_cases : List (ℕ × ℕ)
store_cases =
    (Instr.i32_store, 4)
    ∷ (Instr.i64_store, 8)
    ∷ (Instr.f32_store, 4)
    ∷ (Instr.f64_store, 8)
    ∷ (Instr.i32_store8, 1)
    ∷ (Instr.i64_store8, 1)
    ∷ (Instr.i32_store16, 2)
    ∷ (Instr.i64_store16, 2)
    ∷ (Instr.i64_store32, 4)
    ∷ []
