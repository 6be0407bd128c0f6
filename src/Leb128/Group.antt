-- ===== src/Leb128/Group.antt =====
-- One group of seven bits as arithmetic, for both decoders of lib/fizzy/leb128.hpp.
use fizzy.Common.{ℕ, ◌+◌, ◌-◌, ◌*◌, ◌/◌, ◌%◌, ◌^◌, ◌≤◌, ◌<◌, ◌≡◌, refl, ap, ◌∙◌, arith}
use fizzy.Common.{List, Option, none, some}
use fizzy.Common.Bits.{low_seven, bit_or_shifted, two-pow-add, two-pow-pos, shift_left_mod}
use fizzy.Leb128.{add_group}
use fizzy.Leb128.Spec.{prepend}
use native.Mathlib.Nat.{mul-le-mul_right, add-mul-div_right, div-eq_of_lt}
use mathlib.Core.Option

abbrev pub IsByte : ℕ → Type 0
IsByte b = b < 256

-- A value read from bit `s` on, above the `acc` read before.
abbrev pub place : ℕ → ℕ → ℕ × List ℕ → ℕ × List ℕ
place acc s (m, rest) = (acc + m * 2 ^ s, rest)

-- One group joins the bits that are free above `acc`.
pub add_group_lem :
    (s n acc b : ℕ)
    → acc < 2 ^ s
    → b < 256
    → add_group (s + n) acc b s ≡ acc + b % 128 % 2 ^ n * 2 ^ s
add_group_lem s n acc b h hb =
    rw (low_seven b hb, shift_left_mod (b % 128) s n) (bit_or_shifted s acc (b % 128 % 2 ^ n) h)

pub top_group : (s acc k : ℕ) → acc < 2 ^ s → (acc + k * 2 ^ s) / 2 ^ s ≡ k
top_group s acc k h = add-mul-div_right acc k (two-pow-pos s) ∙ omega (arith, div-eq_of_lt h)

pub place-prepend :
    (acc s b : ℕ) (o : Option (ℕ × List ℕ))
    → Option.map (place acc s) (Option.map (prepend b) o)
      ≡ Option.map (place (acc + (b - 128) * 2 ^ s) (s + 7)) o
place-prepend acc s b none = refl
place-prepend acc s b (some (m, rest)) =
    let e : acc + (128 * m + (b - 128)) * 2 ^ s ≡ acc + (b - 128) * 2 ^ s + m * 2 ^ (s + 7) =
      omega (arith, ap (λ (t : ℕ). m * t) (two-pow-add s 7)) in
    ap (λ t. some (t, rest)) e

pub group_fits : (s b : ℕ) → b < 256 → (b - 128) * 2 ^ s ≤ 127 * 2 ^ s
group_fits s b h = mul-le-mul_right {m = b - 128} {n = 127} (2 ^ s) (omega arith)

pub place_zero : (o : Option (ℕ × List ℕ)) → Option.map (place 0 0) o ≡ o
place_zero none = refl
place_zero (some (m, rest)) = let e : 0 + m * 2 ^ 0 ≡ m = omega arith in ap (λ t. some (t, rest)) e
