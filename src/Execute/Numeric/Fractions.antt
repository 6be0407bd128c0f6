-- ===== src/Execute/Numeric/Fractions.antt =====
-- The arithmetic on floating-point numbers in the switch of lib/fizzy/execute.cpp.
use fizzy.Common.{List, [], ◌∷◌}
use fizzy.Instr
use fizzy.Execute.Floats.{single, double, Arithmetic, fabs, fneg, fceil, ffloor, ftrunc, fnearest}
use fizzy.Execute.Floats.{fmin, fmax, fcopysign}
use fizzy.Execute.Operators.{unary_op, binary_op}
use fizzy.Execute.Numeric.Compare.{Row}

unfoldable pub float_f32 : Arithmetic → List Row
unfolding unary_op binary_op fabs fneg fceil ffloor ftrunc fnearest fmin fmax fcopysign
float_f32 a =
    (Instr.f32_abs, unary_op 32 (fabs single))
    ∷ (Instr.f32_neg, unary_op 32 (fneg single))
    ∷ (Instr.f32_ceil, unary_op 32 (fceil single))
    ∷ (Instr.f32_floor, unary_op 32 (ffloor single))
    ∷ (Instr.f32_trunc, unary_op 32 (ftrunc single))
    ∷ (Instr.f32_nearest, unary_op 32 (fnearest single a))
    ∷ (Instr.f32_sqrt, unary_op 32 a.sqrt)
    ∷ (Instr.f32_add, binary_op 32 a.sum)
    ∷ (Instr.f32_sub, binary_op 32 a.difference)
    ∷ (Instr.f32_mul, binary_op 32 a.product)
    ∷ (Instr.f32_div, binary_op 32 a.quotient)
    ∷ (Instr.f32_min, binary_op 32 (fmin single))
    ∷ (Instr.f32_max, binary_op 32 (fmax single))
    ∷ (Instr.f32_copysign, binary_op 32 (fcopysign single))
    ∷ []

unfoldable pub float_f64 : Arithmetic → List Row
unfolding unary_op binary_op fabs fneg fceil ffloor ftrunc fnearest fmin fmax fcopysign
float_f64 a =
    (Instr.f64_abs, unary_op 64 (fabs double))
    ∷ (Instr.f64_neg, unary_op 64 (fneg double))
    ∷ (Instr.f64_ceil, unary_op 64 (fceil double))
    ∷ (Instr.f64_floor, unary_op 64 (ffloor double))
    ∷ (Instr.f64_trunc, unary_op 64 (ftrunc double))
    ∷ (Instr.f64_nearest, unary_op 64 (fnearest double a))
    ∷ (Instr.f64_sqrt, unary_op 64 a.sqrt)
    ∷ (Instr.f64_add, binary_op 64 a.sum)
    ∷ (Instr.f64_sub, binary_op 64 a.difference)
    ∷ (Instr.f64_mul, binary_op 64 a.product)
    ∷ (Instr.f64_div, binary_op 64 a.quotient)
    ∷ (Instr.f64_min, binary_op 64 (fmin double))
    ∷ (Instr.f64_max, binary_op 64 (fmax double))
    ∷ (Instr.f64_copysign, binary_op 64 (fcopysign double))
    ∷ []
