-- ===== src/Execute/Integers/Division.antt =====
-- When `i32_div_s` and `i64_div_s` of lib/fizzy/execute.cpp trap, and what they give.
use fizzy.Common.{
  ℕ, zero, suc, ◌-◌, ◌*◌, ◌/◌, ◌%◌, ◌^◌, ◌≤◌, ◌<◌, ◌≡◌, ◌≢◌, ◌⊎◌, refl, ap, arith, ltb→lt, ltb→le,
  ltb, ◌==◌, ==_iff, Bool-cases, none, some, lt→ltb, le→ltb, inl, inr,
}
use fizzy.Common.{ℤ, pos, negsuc, signed, pattern_of, quotient, negated}
use native.Mathlib.Nat.{mod-eq_of_lt, pow-suc, div-le_self, div-lt_iff_lt-mul}
use fizzy.Common.Bits.{two-pow-pos}
use fizzy.Execute.Integers.{div_s, overflows}

-- A number that `w` bits hold, of which `2 ^ (w - 1)` is `half`.
abbrev pub IsInt : ℕ → ℤ → Type 0
IsInt half (pos n) = n < half
IsInt half (negsuc n) = n < half

-- The pattern of a number that `w` bits hold stands for the number.
pub signed-pattern_of :
    (w : ℕ) (z : ℤ)
    → 2 ^ w ≡ 2 * 2 ^ (w - 1)
    → IsInt (2 ^ (w - 1)) z
    → signed w (pattern_of w z) ≡ z
unfolding signed pattern_of
signed-pattern_of w (pos n) h b =
    let e : n % 2 ^ w ≡ n = mod-eq_of_lt (omega (arith, h, b)) in
    rw (e, lt→ltb n (2 ^ (w - 1)) b) refl
signed-pattern_of w (negsuc n) h b =
    let e : n % 2 ^ w ≡ n = mod-eq_of_lt (omega (arith, h, b)) in
    let back : 2 ^ w - 1 - (2 ^ w - 1 - n) ≡ n = omega (arith, h, b) in
    rw (e, le→ltb (2 ^ w - 1 - n) (2 ^ (w - 1)) (omega (arith, h, b)), back) refl

negated-IsInt : (half n : ℕ) → 0 < half → n ≤ half → IsInt half (negated n)
negated-IsInt half zero p h = p
negated-IsInt half (suc n) p h = omega (arith, h)

-- The quotient of two numbers, but for the one that is too high.
quotient-IsInt :
    (half : ℕ) (x y : ℤ)
    → 0 < half
    → IsInt half x
    → IsInt half y
    → ¬ ((x ≡ negsuc (half - 1)) × (y ≡ negsuc 0))
    → IsInt half (quotient x y)
unfolding quotient
quotient-IsInt half (pos a) (pos b) p ha hb n = omega (arith, ha, div-le_self a b)
quotient-IsInt half (pos a) (negsuc b) p ha hb n =
    negated-IsInt half (a / suc b) p (omega (arith, ha, div-le_self a (suc b)))
quotient-IsInt half (negsuc a) (pos b) p ha hb n =
    negated-IsInt half (suc a / b) p (omega (arith, ha, div-le_self (suc a) b))
quotient-IsInt half (negsuc a) (negsuc zero) p ha hb n =
    (div-lt_iff_lt-mul {k = 1} {x = suc a} {y = half} (omega arith)).1
      (not_least (λ e. n (ap negsuc e, refl)))
  where
    not_least : a ≢ half - 1 → suc a < half * 1
    not_least m = grind (arith, m)
quotient-IsInt half (negsuc a) (negsuc (suc b)) p ha hb n =
    (div-lt_iff_lt-mul {k = suc (suc b)} {x = suc a} {y = half} (omega arith)).1
      (grind (arith, ha, p))

-- A pattern stands for a number of its width.
pub signed-IsInt :
    (w v : ℕ) → 2 ^ w ≡ 2 * 2 ^ (w - 1) → v < 2 ^ w → IsInt (2 ^ (w - 1)) (signed w v)
unfolding signed
signed-IsInt w v h b = elim (Bool-cases (ltb v (2 ^ (w - 1)))) [
  | inl low ↦ rw low (ltb→lt _ _ low)
  | inr high ↦ rw high (omega (arith, h, b, ltb→le _ _ high))
]

-- The operands of the division that overflows.
least_by_minus_one :
    (w a b : ℕ)
    → 2 ^ w ≡ 2 * 2 ^ (w - 1)
    → a < 2 ^ w
    → b < 2 ^ w
    → signed w a ≡ negsuc (2 ^ (w - 1) - 1)
    → signed w b ≡ negsuc 0
    → (a ≡ 2 ^ (w - 1)) × (b ≡ 2 ^ w - 1)
unfolding signed
least_by_minus_one w a b h ha hb ea eb = ground (arith, h, ha, hb, ea, eb)

pub twice_half : (w : ℕ) → 0 < w → 2 ^ w ≡ 2 * 2 ^ (w - 1)
twice_half zero p = absurd (omega arith)
twice_half (suc w) p = let e : suc w - 1 ≡ w = omega arith in rw e (omega (arith, pow-suc 2 w))

-- Signed division of words of any positive width traps where the divisor is zero or the least
-- number is divided by minus one, and elsewhere, with a divisor that is not zero, gives the
-- pattern that stands for the quotient of the two numbers truncated toward zero.
pub div_s-signed :
    (w a b : ℕ)
    → 0 < w
    → a < 2 ^ w
    → b < 2 ^ w
    → (((b ≡ 0) ⊎ ((a ≡ 2 ^ (w - 1)) × (b ≡ 2 ^ w - 1))) × (div_s w a b ≡ none))
      ⊎ ((b ≢ 0)
          × (q : ℕ) × (div_s w a b ≡ some q)
          × (signed w q ≡ quotient (signed w a) (signed w b)))
unfolding div_s
div_s-signed w a b p ha hb =
    let h = twice_half w p in
    let q = quotient (signed w a) (signed w b) in
    elim (Bool-cases (b == 0)) [
      | inl zero_b ↦ inl (inl ((==_iff _ _).0 zero_b), rw zero_b refl)
      | inr some_b ↦ elim (Bool-cases (overflows w a b)) [
        | inl over ↦ inl (inr (ground (arith, over)), rw (some_b, over) refl)
        | inr fits ↦
            let small =
              quotient-IsInt (2 ^ (w - 1)) (signed w a) (signed w b) (two-pow-pos (w - 1))
                (signed-IsInt w a h ha) (signed-IsInt w b h hb)
                (λ e. ground (arith, fits, least_by_minus_one w a b h ha hb e.0 e.1)) in
            inr (
              ground (arith, some_b),
              pattern_of w q,
              rw (some_b, fits) refl,
              signed-pattern_of w q h small,
            )
      ]
    ]
