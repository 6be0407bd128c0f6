-- ===== src/Execute/Integers/Tests.antt =====
-- The operations on integers of lib/fizzy/execute.cpp at concrete inputs.
use fizzy.Common.{ℕ, ◌-◌, ◌^◌, ◌≡◌, ◌≢◌, ◌⊎◌, arith, none, some, true, false, signed, quotient}
use fizzy.Execute.Integers.{div_s, Scalar, extend}
use fizzy.Execute.Integers.Division.{div_s-signed}
use fizzy.Execute.Integers.Extension.{Extends, extend-Extends}

-- The pattern of - 2.
abbrev minus_two : ℕ
minus_two = 0xfffffffe

abbrev seven : ℕ
seven = 7

div_s-signed_example :
    (((minus_two ≡ 0) ⊎ ((seven ≡ 2 ^ 31) × (minus_two ≡ 2 ^ 32 - 1)))
      × (div_s 32 seven minus_two ≡ none))
    ⊎ ((minus_two ≢ 0)
        × (q : ℕ) × (div_s 32 seven minus_two ≡ some q)
        × (signed 32 q ≡ quotient (signed 32 seven) (signed 32 minus_two)))
div_s-signed_example = div_s-signed 32 seven minus_two (omega arith) (omega arith) (omega arith)

abbrev int8 : Scalar
int8 = record { bits = 8; is_signed = true }

abbrev uint32 : Scalar
uint32 = record { bits = 32; is_signed = false }

extend-Extends_example : Extends uint32 int8 200 (extend uint32 int8 200)
extend-Extends_example = extend-Extends uint32 int8 200 (omega arith) (omega arith) (omega arith)
