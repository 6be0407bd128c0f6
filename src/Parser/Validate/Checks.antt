-- ===== src/Parser/Validate/Checks.antt =====
-- What each check of `parse` in lib/fizzy/parser.cpp accepts.
use fizzy.Common.{
  ℕ, ◌<◌, ◌≡◌, refl, ap, ◌∙◌, inl, inr, ◌↔◌, arith, List, [], ◌∷◌, Option, none, some,
}
use fizzy.Common.{}
use fizzy.Common.{Result, ok, err, Error, check, ◌>>=◌, ◌>>◌, Bool, true, false, ltb, not}
use fizzy.Common.{length, All, ltb→lt, lt→ltb, ltb→le, get_elem?, Bool-cases}
use mathlib.Core.Option
use fizzy.Types.{ValType, same_valtype, ConstantExpression, constant, Global, GlobalType}
use fizzy.Module.{Module, get_global_count, get_global_type}
use fizzy.Common.{asserted}
use fizzy.Parser.Validate.{validate_constant_expression, for_each}
use fizzy.Parser.Validate.{}
use fizzy.Parser.Validate.Spec.{IsConstOf}

pub same_valtype_iff : (s t : ValType) → (same_valtype s t ≡ true) ↔ (s ≡ t)
unfolding same_valtype
same_valtype_iff s t = ground arith

pub check_iff : (b : Bool) (e : Error) → (check b e ≡ ok tt) ↔ (b ≡ true)
check_iff b e = ground arith

-- A check in front of others.
pub >>-eq-ok {ℓ} :
    {A : Type ℓ} (m : Result (Unit {0})) (k : Result A) {a : A}
    → ((m >> k) ≡ ok a) ↔ ((m ≡ ok tt) × (k ≡ ok a))
>>-eq-ok (ok tt) k = (λ h. (refl, h), λ h. h.1)
>>-eq-ok (err e) k = (λ h. cc, λ h. cc)

pub for_each_iff {ℓ} :
    {A : Type ℓ} (P : A → Type 0) (body : A → Result (Unit {0}))
    → ((x : A) → (body x ≡ ok tt) ↔ P x)
    → (xs : List A) → (for_each xs body ≡ ok tt) ↔ All P xs
unfolding for_each
for_each_iff P body each [] = (λ h. tt, λ h. refl)
for_each_iff P body each (x ∷ xs) =
    let rest = for_each_iff P body each xs in
    (
      λ h.
          let parts = (>>-eq-ok (body x) (for_each xs body)).0 h in
          ((each x).0 parts.0, rest.0 parts.1),
      λ h. (>>-eq-ok (body x) (for_each xs body)).1 ((each x).1 h.0, rest.1 h.1),
    )

pub get_elem?-some-lt {ℓ} :
    {A : Type ℓ} (xs : List A) (i : ℕ) {a : A} → get_elem? xs i ≡ some a → i < length xs
get_elem?-some-lt [] i e = cc
get_elem?-some-lt (x ∷ xs) ℕ.zero e = omega arith
get_elem?-some-lt (x ∷ xs) (ℕ.suc i) e = omega (arith, get_elem?-some-lt xs i e)

map-some-some {ℓ κ} :
    {A : Type ℓ} {B : Type κ} (f : A → B) (o : Option A) {b : B}
    → Option.map f o ≡ some b
    → (a : A) × (o ≡ some a)
map-some-some f none e = cc
map-some-some f (some a) e = (a, refl)

pub get_global_type-lt :
    (m : Module) (i : ℕ) {g : GlobalType} → get_global_type m i ≡ some g → i < get_global_count m
unfolding get_global_type
get_global_type-lt m i e = elim (Bool-cases (ltb i (length m.imported_global_types))) [
  | inl low ↦ omega (arith, ltb→lt _ _ low)
  | inr high ↦
      let own = map-some-some (λ (g : Global). g.type) _ (rw (high, get_global_type) at e) in
      omega (arith, ltb→le _ _ high, get_elem?-some-lt m.globalsec _ own.1)
]

-- The checks on the global `o` that an expression names.
const_checks :
    (o : Option GlobalType) (t : ValType) (e₁ e₂ : Error)
    → ((do g ← asserted o; check (not g.is_mutable) e₁; check (same_valtype g.value_type t) e₂)
        ≡ ok tt)
      ↔ ((g : GlobalType) × (o ≡ some g) × (g.is_mutable ≡ false) × (g.value_type ≡ t))
const_checks none t e₁ e₂ = (λ h. cc, λ h. cc (h.1))
const_checks (some g) t e₁ e₂ = (
  λ h.
      let parts =
        (>>-eq-ok (check (not g.is_mutable) e₁) (check (same_valtype g.value_type t) e₂)).0 h in
      (
        g,
        refl,
        ground (arith, parts.0),
        (same_valtype_iff _ _).0 ((check_iff (same_valtype g.value_type t) e₂).0 parts.1),
      ),
  λ h.
      let same : g ≡ h.0 = cc (h.1) in
      let fixed : g.is_mutable ≡ false = ap (λ (x : GlobalType). x.is_mutable) same ∙ h.2 in
      let typed : g.value_type ≡ t = ap (λ (x : GlobalType). x.value_type) same ∙ h.3 in
      (>>-eq-ok (check (not g.is_mutable) e₁) (check (same_valtype g.value_type t) e₂)).1 (
        ground (arith, fixed),
        (check_iff (same_valtype g.value_type t) e₂).1 ((same_valtype_iff _ _).1 typed),
      ),
)

pub validate_constant_expression_iff :
    (e : ConstantExpression) (m : Module) (t : ValType)
    → (validate_constant_expression e m t ≡ ok tt) ↔ IsConstOf m t e
unfolding validate_constant_expression
validate_constant_expression_iff (constant value) m t = (λ h. tt, λ h. refl)
validate_constant_expression_iff (ConstantExpression.global_get i) m t =
    let core = const_checks (get_global_type m i) t _ _ in
    (
      λ h. core.0 ((>>-eq-ok (check (ltb i (get_global_count m)) _) _).0 h).1,
      λ h.
          (>>-eq-ok (check (ltb i (get_global_count m)) _) _).1
            ((check_iff _ _).1 (lt→ltb _ _ (get_global_type-lt m i h.1)), core.1 h),
    )
