-- ===== src/Execute/Floats/Tests.antt =====
-- The operations on floating-point numbers of lib/fizzy/execute.cpp at concrete inputs.
use fizzy.Common.{ℕ, ◌≡◌, ◌⊎◌, refl, true, false, none, some}
use fizzy.Execute.Floats.{
  single, float_less, float_equal, fmin, fmax, trunc_to, floor_value, ceil_value,
}
use fizzy.Execute.Floats.Order.{fmin_lower, fmax_upper}

abbrev minus_two : ℕ
minus_two = 0xc0000000

abbrev three : ℕ
three = 0x40400000

fmin_lower_example :
    (float_less single minus_two (fmin single minus_two three) ≡ false)
    × (float_less single three (fmin single minus_two three) ≡ false)
    × ((float_equal single (fmin single minus_two three) minus_two ≡ true)
        ⊎ (float_equal single (fmin single minus_two three) three ≡ true))
fmin_lower_example = fmin_lower single minus_two three refl refl

fmax_upper_example :
    (float_less single (fmax single minus_two three) minus_two ≡ false)
    × (float_less single (fmax single minus_two three) three ≡ false)
    × ((float_equal single (fmax single minus_two three) minus_two ≡ true)
        ⊎ (float_equal single (fmax single minus_two three) three ≡ true))
fmax_upper_example = fmax_upper single minus_two three refl refl

-- - 2.5 and its neighbours.
floor_run : floor_value single 0xc0200000 ≡ 0xc0400000
unfolding floor_value
floor_run = refl

ceil_run : ceil_value single 0xc0200000 ≡ 0xc0000000
unfolding ceil_value
ceil_run = refl

-- 3.0 as an integer, and 2 ^ 31, which is too large.
trunc_run : trunc_to single (record { lower = 0xcf000001; upper = 0x4f000000 }) 32 three ≡ some 3
unfolding trunc_to
trunc_run = refl

trunc_trap :
    trunc_to single (record { lower = 0xcf000001; upper = 0x4f000000 }) 32 0x4f000000 ≡ none
unfolding trunc_to
trunc_trap = refl
