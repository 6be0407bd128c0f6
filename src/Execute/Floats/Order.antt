-- ===== src/Execute/Floats/Order.antt =====
-- What `fmin` and `fmax` of lib/fizzy/execute.cpp give of two numbers.
use fizzy.Common.{
  ℕ, ◌≡◌, ◌⊎◌, refl, sym, ◌∙◌, subst, Bool, Bool-cases, true, false, not, ◌&&◌, ◌||◌, if◌then◌else◌,
  inl, inr,
}
use fizzy.Common.{ℤ, pos, lt_int}
use fizzy.Execute.Floats.{
  Format, is_nan, signbit, sign_mask, place, float_less, float_equal, fmin, fmax, quiet_nan,
}
use fizzy.Execute.Floats.Places.{
  lt_int-irreflexive, lt_int-asymmetric, both, tests-zeros, tests-others, IsNumber, less-place,
  equal-places, places-equal, negative_zero-place, positive_zero-place, negative_zero-IsNumber,
  positive_zero-IsNumber,
}

module _ (f : Format) (a b : ℕ) (na : IsNumber f a) (nb : IsNumber f b) where
  -- A number at the place of one operand that is not above the other.
  IsLower : ℕ → Type 0
  IsLower r =
      IsNumber f r
      × (((place f r ≡ place f a) × (lt_int (place f b) (place f a) ≡ false))
          ⊎ ((place f r ≡ place f b) × (lt_int (place f a) (place f b) ≡ false)))

  -- The same with the other order.
  IsUpper : ℕ → Type 0
  IsUpper r =
      IsNumber f r
      × (((place f r ≡ place f a) × (lt_int (place f a) (place f b) ≡ false))
          ⊎ ((place f r ≡ place f b) × (lt_int (place f b) (place f a) ≡ false)))

  -- Where both operands are zeros.
  zero_places :
      (third : Bool)
      → (float_equal f a 0 && float_equal f b 0 && third) ≡ true
      → (place f a ≡ pos 0) × (place f b ≡ pos 0)
  zero_places third h =
      let (p, q) = both (float_equal f a 0) (float_equal f b 0) third h in
      (
        places-equal f a 0 na (positive_zero-IsNumber f) p ∙ positive_zero-place f,
        places-equal f b 0 nb (positive_zero-IsNumber f) q ∙ positive_zero-place f,
      )

  -- The operand that the last test takes.
  picked-IsLower : IsLower (if float_less f b a then b else a)
  unfolding IsLower
  picked-IsLower = elim (Bool-cases (float_less f b a)) [
    | inl less ↦ rw less (
      nb,
      inr (refl, lt_int-asymmetric (place f b) (place f a) (sym (less-place f b a nb na) ∙ less)),
    )
    | inr above ↦ rw above (na, inl (refl, sym (less-place f b a nb na) ∙ above))
  ]

  picked-IsUpper : IsUpper (if float_less f a b then b else a)
  unfolding IsUpper
  picked-IsUpper = elim (Bool-cases (float_less f a b)) [
    | inl less ↦ rw less (
      nb,
      inr (refl, lt_int-asymmetric (place f a) (place f b) (sym (less-place f a b na nb) ∙ less)),
    )
    | inr above ↦ rw above (na, inl (refl, sym (less-place f a b na nb) ∙ above))
  ]

  fmin-IsLower : IsLower (fmin f a b)
  unfolding fmin IsLower
  fmin-IsLower =
      let signs = signbit f a || signbit f b in
      let zeros = float_equal f a 0 && float_equal f b 0 && signs in
      elim (Bool-cases zeros) [
        | inl h ↦
            let (pa, pb) = zero_places signs h in
            subst IsLower
              (sym (
                tests-zeros (is_nan f a) (is_nan f b) zeros (float_less f b a) (quiet_nan f)
                  (sign_mask f) a b na nb h))
              (negative_zero-IsNumber f, inl (negative_zero-place f ∙ sym pa, rw (pa, pb) refl))
        | inr h ↦
            subst IsLower
              (sym (
                tests-others (is_nan f a) (is_nan f b) zeros (float_less f b a) (quiet_nan f)
                  (sign_mask f) a b na nb h))
              picked-IsLower
      ]

  fmax-IsUpper : IsUpper (fmax f a b)
  unfolding fmax IsUpper
  fmax-IsUpper =
      let signs = not (signbit f a) || not (signbit f b) in
      let zeros = float_equal f a 0 && float_equal f b 0 && signs in
      elim (Bool-cases zeros) [
        | inl h ↦
            let (pa, pb) = zero_places signs h in
            subst IsUpper
              (sym (
                tests-zeros (is_nan f a) (is_nan f b) zeros (float_less f a b) (quiet_nan f) 0 a b
                  na nb h))
              (positive_zero-IsNumber f, inl (positive_zero-place f ∙ sym pa, rw (pa, pb) refl))
        | inr h ↦
            subst IsUpper
              (sym (
                tests-others (is_nan f a) (is_nan f b) zeros (float_less f a b) (quiet_nan f) 0 a b
                  na nb h))
              picked-IsUpper
      ]

  -- Whether one pattern is below another, by places that are known.
  not_below :
      (x y : ℕ) {u v : ℤ}
      → IsNumber f x
      → IsNumber f y
      → place f x ≡ u
      → place f y ≡ v
      → lt_int u v ≡ false
      → float_less f x y ≡ false
  not_below x y nx ny p q e = less-place f x y nx ny ∙ rw (p, q) e

  -- For two patterns of a format that are no NaN, neither is less than their minimum, and the
  -- minimum is equal to one of them, as floating-point numbers.
  pub fmin_lower :
      (float_less f a (fmin f a b) ≡ false)
      × (float_less f b (fmin f a b) ≡ false)
      × ((float_equal f (fmin f a b) a ≡ true) ⊎ (float_equal f (fmin f a b) b ≡ true))
  unfolding IsLower
  fmin_lower =
      let r = fmin f a b in
      elim fmin-IsLower.1 [
        | inl (p, e) ↦ (
          not_below a r na fmin-IsLower.0 refl p (lt_int-irreflexive (place f a)),
          not_below b r nb fmin-IsLower.0 refl p e,
          inl (equal-places f r a fmin-IsLower.0 na p),
        )
        | inr (p, e) ↦ (
          not_below a r na fmin-IsLower.0 refl p e,
          not_below b r nb fmin-IsLower.0 refl p (lt_int-irreflexive (place f b)),
          inr (equal-places f r b fmin-IsLower.0 nb p),
        )
      ]

  -- For two patterns of a format that are no NaN, neither is greater than their maximum, and the
  -- maximum is equal to one of them, as floating-point numbers.
  pub fmax_upper :
      (float_less f (fmax f a b) a ≡ false)
      × (float_less f (fmax f a b) b ≡ false)
      × ((float_equal f (fmax f a b) a ≡ true) ⊎ (float_equal f (fmax f a b) b ≡ true))
  unfolding IsUpper
  fmax_upper =
      let r = fmax f a b in
      elim fmax-IsUpper.1 [
        | inl (p, e) ↦ (
          not_below r a fmax-IsUpper.0 na p refl (lt_int-irreflexive (place f a)),
          not_below r b fmax-IsUpper.0 nb p refl e,
          inl (equal-places f r a fmax-IsUpper.0 na p),
        )
        | inr (p, e) ↦ (
          not_below r a fmax-IsUpper.0 na p refl e,
          not_below r b fmax-IsUpper.0 nb p refl (lt_int-irreflexive (place f b)),
          inr (equal-places f r b fmax-IsUpper.0 nb p),
        )
      ]
