-- ===== src/Parser/Validate/Exports.antt =====
-- What the checks of `parse` in lib/fizzy/parser.cpp accept of the exports and the start function.
use fizzy.Common.{
  ℕ, ◌-◌, ◌≤◌, ◌<◌, ◌≡◌, refl, ap, ◌∙◌, ◌≢◌, inl, inr, ◌↔◌, arith, List, [], ◌∷◌, Option, none,
  some,
}
use fizzy.Common.{validation_error, duplicate_export_name}
use fizzy.Common.{ok, Error, check, ◌>>=◌, ◌>>◌, true, false, ltb, not, ◌&&◌}
use fizzy.Common.{length, All, ltb→lt, lt→ltb, ltb→le, get_elem?, Bool-cases}
use fizzy.Types.{FuncType}
use fizzy.Types.{Export}
use fizzy.Module.{Module, is_empty, get_function_count, get_function_type}
use fizzy.Parser.Sections.{same_bytes}
use fizzy.Common.{asserted}
use fizzy.Parser.Validate.{check_export, check_exports, has_name}
use fizzy.Parser.Validate.{check_start}
use fizzy.Parser.Validate.Spec.{IsExportOf, AreFresh, IsStart, table_count, memory_count}
use fizzy.Parser.Validate.Checks.{check_iff, >>-eq-ok}
use fizzy.Parser.Validate.Entries.{check_export_iff}
use fizzy.Parser.Validate.Checks.{get_elem?-some-lt}

pub same_bytes_iff : (xs ys : List ℕ) → (same_bytes xs ys ≡ true) ↔ (xs ≡ ys)
same_bytes_iff [] [] = (λ h. refl, λ h. refl)
same_bytes_iff [] (y ∷ ys) = (λ h. cc, λ h. cc)
same_bytes_iff (x ∷ xs) [] = (λ h. cc, λ h. cc)
same_bytes_iff (x ∷ xs) (y ∷ ys) =
    let rest = same_bytes_iff xs ys in (λ h. ground (arith, rest.0), λ h. ground (arith, rest.1))

has_name_iff :
    (names : List (List ℕ)) (name : List ℕ)
    → (has_name names name ≡ false) ↔ All (λ n. n ≢ name) names
has_name_iff [] name = (λ h. tt, λ h. refl)
has_name_iff (seen ∷ names) name =
    let rest = has_name_iff names name in
    let same = same_bytes_iff seen name in
    (
      λ h. ((λ e. ground (arith, same.1 e)), rest.0 (ground arith)),
      λ h. elim (Bool-cases (same_bytes seen name)) [
        | inl found ↦ absurd (h.0 (same.0 found))
        | inr new ↦ rw new (rest.1 h.1)
      ],
    )

pub check_exports_iff :
    (m : Module) (names : List (List ℕ)) (es : List Export)
    → table_count m ≤ 1
    → memory_count m ≤ 1
    → (check_exports m names es ≡ ok tt)
      ↔ (All (λ e. IsExportOf m e.kind e.index) es × AreFresh names es)
unfolding check_exports
check_exports_iff m names [] ht hm = (λ h. (tt, tt), λ h. refl)
check_exports_iff m names (e ∷ es) ht hm =
    let outer = >>-eq-ok (check_export m e.kind e.index) (
      check (not (has_name names e.name)) (validation_error (duplicate_export_name e.name))
      >> check_exports m (e.name ∷ names) es) in
    let inner =
      >>-eq-ok
        (check (not (has_name names e.name)) (validation_error (duplicate_export_name e.name)))
        (check_exports m (e.name ∷ names) es) in
    let index = check_export_iff m e.kind e.index ht hm in
    let fresh = has_name_iff names e.name in
    let rest = check_exports_iff m (e.name ∷ names) es ht hm in
    (
      λ h.
          let new = inner.0 (outer.0 h).1 in
          let tail = rest.0 new.1 in
          ((index.0 (outer.0 h).0, tail.0), (fresh.0 (ground (arith, new.0)), tail.1)),
      λ h. outer.1 (index.1 h.0.0, inner.1 (ground (arith, fresh.1 h.1.0), rest.1 (h.0.1, h.1.1))),
    )

is_empty_iff {ℓ} : {A : Type ℓ} (xs : List A) → (is_empty xs ≡ true) ↔ (xs ≡ [])
is_empty_iff [] = (λ h. refl, λ h. refl)
is_empty_iff (x ∷ xs) = (λ h. cc, λ h. cc)

start_checks :
    (o : Option FuncType) (e : Error)
    → ((do t ← asserted o; check (is_empty t.inputs && is_empty t.outputs) e) ≡ ok tt)
      ↔ ((t : FuncType) × (o ≡ some t) × (t.inputs ≡ []) × (t.outputs ≡ []))
start_checks none e = (λ h. cc, λ h. cc (h.1))
start_checks (some t) e = (
  λ h. (
    t,
    refl,
    (is_empty_iff t.inputs).0 (ground arith),
    (is_empty_iff t.outputs).0 (ground arith),
  ),
  λ h.
      let same : t ≡ h.0 = cc (h.1) in
      let ins : t.inputs ≡ [] = ap (λ (x : FuncType). x.inputs) same ∙ h.2 in
      let outs : t.outputs ≡ [] = ap (λ (x : FuncType). x.outputs) same ∙ h.3 in
      ground (arith, (is_empty_iff t.inputs).1 ins, (is_empty_iff t.outputs).1 outs),
)

get_function_type-lt :
    (m : Module) (i : ℕ) {t : FuncType} → get_function_type m i ≡ some t → i < get_function_count m
unfolding get_function_type
get_function_type-lt m i e = elim (Bool-cases (ltb i (length m.imported_function_types))) [
  | inl low ↦ omega (arith, ltb→lt _ _ low)
  | inr high ↦
      let own =
        own_type (get_elem? m.funcsec (i - length m.imported_function_types)) (get_elem? m.typesec)
          (rw (high, get_function_type) at e) in
      omega (arith, ltb→le _ _ high, get_elem?-some-lt m.funcsec _ own.1)
]
  where
    own_type :
        (o : Option ℕ) (f : ℕ → Option FuncType) {t : FuncType}
        → elim o [ none ↦ none | some i ↦ f i ] ≡ some t
        → (j : ℕ) × (o ≡ some j)
    own_type none f e = cc
    own_type (some j) f e = (j, refl)

pub check_start_iff : (m : Module) (o : Option ℕ) → (check_start m o ≡ ok tt) ↔ IsStart m o
unfolding check_start
check_start_iff m none = (λ h. tt, λ h. refl)
check_start_iff m (some i) =
    let core = start_checks (get_function_type m i) _ in
    (
      λ h. core.0 ((>>-eq-ok (check (ltb i (get_function_count m)) _) _).0 h).1,
      λ h.
          (>>-eq-ok (check (ltb i (get_function_count m)) _) _).1
            ((check_iff _ _).1 (lt→ltb _ _ (get_function_type-lt m i h.1)), core.1 h),
    )
