-- ===== src/Execute/Integers/Extension.antt =====
-- The types and the dispatch of `extend` in lib/fizzy/execute.cpp.
use fizzy.Common.{
  ℕ, ◌+◌, ◌-◌, ◌%◌, ◌^◌, ◌≤◌, ◌<◌, ◌≡◌, ◌⊎◌, refl, inl, inr, arith, ltb, ltb→lt, ltb→le, lt→ltb,
  le→ltb, true, false, Bool-cases, signed, pattern_of,
}
use fizzy.Common.Bits.{two-pow-add, two-pow-pos}
use fizzy.Execute.Integers.{Scalar, is_same, extend, extend_signed}
use native.Mathlib.Nat.{mod-eq_of_lt}

two-pow_mono : (n k : ℕ) → n ≤ k → 2 ^ n ≤ 2 ^ k
two-pow_mono n k h =
    let e : k ≡ n + (k - n) = omega (arith, h) in
    rw (e, two-pow-add n (k - n)) (grind (arith, two-pow-pos (k - n), two-pow-pos n))

-- The number has no sign, or its sign bit is clear.
abbrev pub IsPositive : Scalar → ℕ → Type 0
IsPositive t v = (t.is_signed ≡ false) ⊎ (v < 2 ^ (t.bits - 1))

abbrev pub IsNegative : Scalar → ℕ → Type 0
IsNegative t v = (t.is_signed ≡ true) × (2 ^ (t.bits - 1) ≤ v)

-- What an extension gives: the bits above those of the source are clear, or they are all set.
abbrev pub Extends : (dst src : Scalar) → ℕ → ℕ → Type 0
Extends dst src v r =
    (IsPositive src v × (r ≡ v)) ⊎ (IsNegative src v × (r + 2 ^ src.bits ≡ v + 2 ^ dst.bits))

same_width : (dst src : Scalar) → is_same src dst ≡ true → src.bits ≡ dst.bits
same_width dst src e = ground (arith, e)

by_sign :
    (dst src : Scalar) (v r : ℕ)
    → (src.is_signed ≡ false → r ≡ v)
    → (src.is_signed ≡ true → v < 2 ^ (src.bits - 1) → r ≡ v)
    → (src.is_signed ≡ true → 2 ^ (src.bits - 1) ≤ v → r + 2 ^ src.bits ≡ v + 2 ^ dst.bits)
    → Extends dst src v r
by_sign dst src v r unsigned low high = elim (Bool-cases src.is_signed) [
  | inr none ↦ inl (inl none, unsigned none)
  | inl with_sign ↦ elim (Bool-cases (ltb v (2 ^ (src.bits - 1)))) [
    | inl below ↦ let b = ltb→lt _ _ below in inl (inr b, low with_sign b)
    | inr above ↦ let b = ltb→le _ _ above in inr ((with_sign, b), high with_sign b)
  ]
]

module _ (from to v : ℕ) (p : 0 < from) (b : v < 2 ^ from) (wide : 2 ^ from ≤ 2 ^ to) where
  extend_signed_low : v < 2 ^ (from - 1) → extend_signed from to v ≡ v
  unfolding extend_signed signed pattern_of
  extend_signed_low low = rw (lt→ltb v (2 ^ (from - 1)) low) (mod-eq_of_lt (omega (arith, b, wide)))

  extend_signed_high : 2 ^ (from - 1) ≤ v → extend_signed from to v + 2 ^ from ≡ v + 2 ^ to
  unfolding extend_signed signed pattern_of
  extend_signed_high high =
      let e : (2 ^ from - 1 - v) % 2 ^ to ≡ 2 ^ from - 1 - v =
        mod-eq_of_lt (omega (arith, b, wide)) in
      rw (le→ltb v (2 ^ (from - 1)) high, e) (omega (arith, b, wide))

-- For a source type of one bit or more and a destination type that is no narrower, the extension
-- of a number that fits the source gives the number itself where the source type is unsigned or
-- the sign bit is clear, and where the source type is signed and the sign bit is set it gives the
-- number with all the bits above those of the source set.
pub extend-Extends :
    (dst src : Scalar) (v : ℕ)
    → 0 < src.bits
    → src.bits ≤ dst.bits
    → v < 2 ^ src.bits
    → Extends dst src v (extend dst src v)
unfolding extend
extend-Extends dst src v p w b =
    let wide : 2 ^ src.bits ≤ 2 ^ dst.bits = two-pow_mono src.bits dst.bits w in
    elim (Bool-cases (is_same src dst)) [
      | inl same ↦
          by_sign dst src v (extend dst src v) (λ e. rw same refl) (λ e l. rw same refl)
            λ e h. rw (same, same_width dst src same) refl
      | inr other ↦
          by_sign dst src v (extend dst src v) (λ e. rw (other, e) refl)
            (λ e l. rw (other, e) (extend_signed_low src.bits dst.bits v p b wide l))
            λ e h. rw (other, e) (extend_signed_high src.bits dst.bits v p b wide h)
    ]
