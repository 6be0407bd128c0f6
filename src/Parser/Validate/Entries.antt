-- ===== src/Parser/Validate/Entries.antt =====
-- What the checks of `parse` in lib/fizzy/parser.cpp accept of globals, elements, exports, the start
-- function, tables and memories.
use fizzy.Common.{ℕ, ◌+◌, ◌≤◌, ◌<◌, ◌≡◌, refl, ◌↔◌, arith, List, [], ◌∷◌}
use fizzy.Common.{validation_error, global_not_imported, element_function_index}
use fizzy.Common.{ok, Error, check, Bool, true, false, ltb, ◌==◌, not, ◌||◌, ◌&&◌}
use fizzy.Common.{length, All}
use fizzy.Types.{ValType, ConstantExpression, constant, Global}
use fizzy.Types.{ExternalKind, function, table, memory, global, Element}
use fizzy.Module.{Module, is_empty, get_function_count, has_table, has_memory}
use fizzy.Parser.Validate.{validate_constant_expression, for_each, check_export}
use fizzy.Parser.Validate.{check_global, from_import, check_element}
use fizzy.Parser.Validate.Spec.{IsConstOf, IsImportedGet, IsExportOf, table_count, memory_count}
use fizzy.Parser.Validate.Checks.{>>-eq-ok, for_each_iff, validate_constant_expression_iff}

pub presence {ℓ κ} :
    {A : Type ℓ} {B : Type κ} (xs : List A) (ys : List B)
    → ((not (is_empty xs) || not (is_empty ys)) ≡ true) ↔ (0 < length xs + length ys)
presence [] [] = (λ h. cc, λ h. absurd (omega arith))
presence [] (y ∷ ys) = (λ h. omega arith, λ h. refl)
presence (x ∷ xs) ys = (λ h. omega arith, λ h. refl)

pub check_global_iff :
    (m : Module) (g : Global)
    → (check_global m g ≡ ok tt)
      ↔ (IsConstOf m g.type.value_type g.expression × IsImportedGet m g.expression)
unfolding check_global
check_global_iff m g =
    let both =
      >>-eq-ok (validate_constant_expression g.expression m g.type.value_type)
        (check (from_import g.expression m) (validation_error global_not_imported)) in
    let typed = validate_constant_expression_iff g.expression m g.type.value_type in
    (
      λ h. (typed.0 (both.0 h).0, (imported g.expression).0 (both.0 h).1),
      λ h. both.1 (typed.1 h.0, (imported g.expression).1 h.1),
    )
  where
    imported :
        (e : ConstantExpression)
        → (check (from_import e m) (validation_error global_not_imported) ≡ ok tt)
          ↔ IsImportedGet m e
    imported (constant value) = (λ h. tt, λ h. refl)
    imported (ConstantExpression.global_get i) = (λ h. ground arith, λ h. ground arith)

pub check_element_iff :
    (m : Module) (e : Element)
    → (check_element m e ≡ ok tt)
      ↔ (IsConstOf m ValType.i32 e.offset × All (λ i. i < get_function_count m) e.init)
unfolding check_element
check_element_iff m e =
    let typed = validate_constant_expression_iff e.offset m ValType.i32 in
    let items =
      for_each_iff (λ i. i < get_function_count m)
        (λ i. check (ltb i (get_function_count m)) (validation_error element_function_index))
        (λ i. (λ h. ground arith, λ h. ground arith)) e.init in
    let both = >>-eq-ok (validate_constant_expression e.offset m ValType.i32) (for_each e.init _) in
    (λ h. (typed.0 (both.0 h).0, items.0 (both.0 h).1), λ h. both.1 (typed.1 h.0, items.1 h.1))

pub has_table_iff : (m : Module) → (has_table m ≡ true) ↔ (0 < table_count m)
has_table_iff m = presence m.tablesec m.imported_table_types

pub has_memory_iff : (m : Module) → (has_memory m ≡ true) ↔ (0 < memory_count m)
has_memory_iff m = presence m.memorysec m.imported_memory_types

single_export :
    (n i : ℕ) (present : Bool) (e : Error)
    → n ≤ 1
    → ((present ≡ true) ↔ (0 < n))
    → (check (i == 0 && present) e ≡ ok tt) ↔ (i < n)
single_export n i true e h p = (λ c. ground (arith, p.0 refl), λ c. ground arith)
single_export n i false e h p = (λ c. ground arith, λ c. cc (p.1 (omega arith)))

pub check_export_iff :
    (m : Module) (kind : ExternalKind) (i : ℕ)
    → table_count m ≤ 1
    → memory_count m ≤ 1
    → (check_export m kind i ≡ ok tt) ↔ IsExportOf m kind i
unfolding check_export
check_export_iff m function i ht hm = (λ h. ground arith, λ h. ground arith)
check_export_iff m table i ht hm = single_export (table_count m) i _ _ ht (has_table_iff m)
check_export_iff m memory i ht hm = single_export (memory_count m) i _ _ hm (has_memory_iff m)
check_export_iff m global i ht hm = (λ h. ground arith, λ h. ground arith)
