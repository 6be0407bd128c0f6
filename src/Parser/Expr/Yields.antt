-- ===== src/Parser/Expr/Yields.antt =====
-- What a step of lib/fizzy/parser_expr.cpp gives: a value with a property, or an exception. A step
-- that stands behind an `assert` never meets a failing one.
use fizzy.Common.{
  ◌≡◌, refl, Bool, true, false, Option, none, some, Result, ok, err, Error, ◌>>=◌, ◌>>◌, check,
  assert, asserted, assertion_failed, parser_error,
}

abbrev pub is_assertion : Error → Bool
is_assertion (parser_error assertion_failed) = true
is_assertion _ = false

abbrev pub Yields {ℓ} : {A : Type ℓ} → (A → Type 0) → Result A → Type 0
Yields Q r = elim r [ ok a ↦ Q a | err e ↦ is_assertion e ≡ false ]

module _ {ℓ κ} {A : Type ℓ} {B : Type κ} where
  pub >>=-Yields :
      (Q : A → Type 0) (R : B → Type 0) (m : Result A) (f : A → Result B)
      → Yields Q m
      → ((a : A) → Q a → Yields R (f a))
      → Yields R (m >>= f)
  >>=-Yields Q R (ok a) f y k = k a y
  >>=-Yields Q R (err e) f y k = y

module _ {κ} {B : Type κ} where
  pub check-Yields :
      (R : B → Type 0) (b : Bool) (e : Error) (m : Result B)
      → is_assertion e ≡ false
      → (b ≡ true → Yields R m)
      → Yields R (check b e >> m)
  check-Yields R true e m y k = k refl
  check-Yields R false e m y k = y

  pub assert-Yields :
      (R : B → Type 0) (b : Bool) (m : Result B) → b ≡ true → Yields R m → Yields R (assert b >> m)
  assert-Yields R true m h k = k
  assert-Yields R false m h k = cc

module _ {ℓ κ} {A : Type ℓ} {B : Type κ} where
  pub asserted-Yields :
      (R : B → Type 0) (o : Option A) (f : A → Result B)
      → ((a : A) × (o ≡ some a))
      → ((a : A) → o ≡ some a → Yields R (f a))
      → Yields R (asserted o >>= f)
  asserted-Yields R (some a) f h k = k a refl
  asserted-Yields R none f h k = cc (h.1)
