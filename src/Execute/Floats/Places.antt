-- ===== src/Execute/Floats/Places.antt =====
-- The order of the floating-point numbers of lib/fizzy/execute.cpp by the places of their patterns.
use fizzy.Common.{
  ℕ, ◌-◌, ◌%◌, ◌^◌, ◌≡◌, refl, ap, arith, Bool, Bool-cases, true, false, not, ◌&&◌, ◌||◌, leb,
  if◌then◌else◌, inl, inr,
}
use fizzy.Common.{ℤ, pos, negsuc, lt_int}
use fizzy.Common.Bits.{two-pow-pos}
use native.Mathlib.Nat.{mod_self, mod-eq_of_lt}
use fizzy.Execute.Floats.{Format, is_nan, sign_mask, place, float_less, float_equal}

pub lt_int-irreflexive : (x : ℤ) → lt_int x x ≡ false
unfolding lt_int
lt_int-irreflexive (pos n) = ground arith
lt_int-irreflexive (negsuc n) = ground arith

pub lt_int-asymmetric : (x y : ℤ) → lt_int x y ≡ true → lt_int y x ≡ false
unfolding lt_int
lt_int-asymmetric (pos m) (pos n) h = ground (arith, h)
lt_int-asymmetric (pos m) (negsuc n) h = cc (h)
lt_int-asymmetric (negsuc m) (pos n) h = refl
lt_int-asymmetric (negsuc m) (negsuc n) h = ground (arith, h)

lt_int-connected : (x y : ℤ) → lt_int x y ≡ false → lt_int y x ≡ false → x ≡ y
unfolding lt_int
lt_int-connected (pos m) (pos n) h k = ap pos (ground (arith, h, k))
lt_int-connected (pos m) (negsuc n) h k = cc (k)
lt_int-connected (negsuc m) (pos n) h k = cc (h)
lt_int-connected (negsuc m) (negsuc n) h k = ap negsuc (ground (arith, h, k))

same_place : (x y : ℤ) → (not (lt_int x y) && not (lt_int y x)) ≡ true → x ≡ y
same_place x y h = elim (Bool-cases (lt_int x y)) [
  | inl less ↦ cc (rw less at h)
  | inr under ↦ elim (Bool-cases (lt_int y x)) [
    | inl less ↦ cc (rw (under, less) at h)
    | inr neither ↦ lt_int-connected x y under neither
  ]
]

pub both : (x y z : Bool) → (x && y && z) ≡ true → (x ≡ true) × (y ≡ true)
both true true z h = (refl, refl)
both true false z h = cc (h)
both false true z h = cc (h)
both false false z h = cc (h)

-- The chain of tests in `fmin` and `fmax`, where neither operand is a NaN.
abbrev tests : Bool → Bool → Bool → ℕ → ℕ → ℕ → ℕ → ℕ
tests nan zeros less q z x y = if nan then q else (if zeros then z else (if less then y else x))

pub tests-zeros :
    (m n zeros less : Bool) (q z x y : ℕ)
    → m ≡ false
    → n ≡ false
    → zeros ≡ true
    → tests (m || n) zeros less q z x y ≡ z
tests-zeros m n zeros less q z x y hm hn hz = rw (hm, hn, hz) refl

pub tests-others :
    (m n zeros less : Bool) (q z x y : ℕ)
    → m ≡ false
    → n ≡ false
    → zeros ≡ false
    → tests (m || n) zeros less q z x y ≡ (if less then y else x)
tests-others m n zeros less q z x y hm hn hz = rw (hm, hn, hz) refl

-- A number that is no NaN.
abbrev pub IsNumber : Format → ℕ → Type 0
IsNumber f a = is_nan f a ≡ false

module _ (f : Format) where
  pub less-place :
      (a b : ℕ) → IsNumber f a → IsNumber f b → float_less f a b ≡ lt_int (place f a) (place f b)
  unfolding float_less
  less-place a b na nb = rw (na, nb) refl

  pub equal-places :
      (a b : ℕ) → IsNumber f a → IsNumber f b → place f a ≡ place f b → float_equal f a b ≡ true
  unfolding float_equal
  equal-places a b na nb e = rw (na, nb, e, lt_int-irreflexive (place f b)) refl

  pub places-equal :
      (a b : ℕ) → IsNumber f a → IsNumber f b → float_equal f a b ≡ true → place f a ≡ place f b
  unfolding float_equal
  places-equal a b na nb e = same_place (place f a) (place f b) (rw (na, nb, float_equal) at e)

  -- Both zeros stand at the same place.
  pub negative_zero-place : place f (sign_mask f) ≡ pos 0
  unfolding place
  negative_zero-place =
      let here : leb (2 ^ (f.width - 1)) (2 ^ (f.width - 1)) ≡ true = ground arith in
      rw (here, mod_self (2 ^ (f.width - 1))) refl

  pub positive_zero-place : place f 0 ≡ pos 0
  unfolding place
  positive_zero-place =
      let here : leb (2 ^ (f.width - 1)) 0 ≡ false = ground (arith, two-pow-pos (f.width - 1)) in
      let low : 0 % 2 ^ (f.width - 1) ≡ 0 = mod-eq_of_lt (two-pow-pos (f.width - 1)) in
      rw (here, low) refl

  pub negative_zero-IsNumber : IsNumber f (sign_mask f)
  negative_zero-IsNumber =
      let low : 2 ^ (f.width - 1) % 2 ^ (f.width - 1) ≡ 0 = mod_self (2 ^ (f.width - 1)) in
      ground (arith, low)

  pub positive_zero-IsNumber : IsNumber f 0
  positive_zero-IsNumber =
      let low : 0 % 2 ^ (f.width - 1) ≡ 0 = mod-eq_of_lt (two-pow-pos (f.width - 1)) in
      ground (arith, low)
