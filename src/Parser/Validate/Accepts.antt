-- ===== src/Parser/Validate/Accepts.antt =====
-- The validation of lib/fizzy/parser.cpp accepts exactly the valid modules.
use fizzy.Common.{ℕ, ◌+◌, ◌≤◌, ◌<◌, ◌≡◌, refl, sym, ap, ◌⊎◌, inl, inr, ◌↔◌, arith, List, [], ◌∷◌}
use fizzy.Common.{validation_error}
use fizzy.Common.{Result, ok, err, Error, check, ◌>>=◌, ◌>>◌, Bool, true, ltb, ◌==◌, ◌||◌}
use fizzy.Common.{length, All, ==_iff}
use fizzy.Types.{ValType, Global}
use fizzy.Types.{Element, Data}
use fizzy.Module.{Module, is_empty, get_function_count, has_table, has_memory}
use fizzy.Parser.Validate.{validate_constant_expression, for_each, check_exports}
use fizzy.Parser.Validate.{
  check_start, check_global, check_element, check_tables, check_memories, check_function_types,
}
use fizzy.Parser.Validate.Spec.{IsConstOf, IsImportedGet, table_count, memory_count}
use fizzy.Parser.Validate.Checks.{check_iff, for_each_iff, validate_constant_expression_iff}
use fizzy.Common.{leb, leb→le}
use fizzy.Common.{function_type_index, function_and_code_differ, parser_error}
use fizzy.Parser.Validate.Entries.{
  check_element_iff, check_global_iff, has_table_iff, has_memory_iff,
}
use fizzy.Parser.Validate.Exports.{check_exports_iff, check_start_iff}
use fizzy.Parser.Validate.{split_imports, validate}
use fizzy.Parser.Validate.Spec.{IsValid}
use mathlib.Core.Path.{subst}

pub check_function_types_iff :
    (m : Module) → (check_function_types m ≡ ok tt) ↔ All (λ i. i < length m.typesec) m.funcsec
unfolding check_function_types
check_function_types_iff m =
    for_each_iff (λ i. i < length m.typesec)
      (λ i. check (ltb i (length m.typesec)) (validation_error function_type_index))
      (λ i. (λ h. ground arith, λ h. ground arith)) m.funcsec

-- At most one of the two kinds, and at most one of each.
at_most_one {ℓ κ} :
    {A : Type ℓ} {B : Type κ} (xs : List A) (ys : List B)
    → ((leb (length xs) 1 ≡ true)
        × (leb (length ys) 1 ≡ true)
        × ((is_empty xs || is_empty ys) ≡ true))
      ↔ (length xs + length ys ≤ 1)
at_most_one [] ys = (λ h. ground arith, λ h. ground arith)
at_most_one (x ∷ xs) [] = (λ h. ground arith, λ h. ground arith)
at_most_one (x ∷ xs) (y ∷ ys) = (λ h. ground arith, λ h. ground arith)

-- A section that needs a table or a memory is empty, or there is one.
needs {ℓ} :
    {A : Type ℓ} (xs : List A) (present : Bool) (n : ℕ)
    → ((present ≡ true) ↔ (0 < n))
    → ((is_empty xs || present) ≡ true) ↔ ((xs ≡ []) ⊎ (0 < n))
needs [] present n p = (λ h. inl refl, λ h. refl)
needs (x ∷ xs) present n p =
    (λ h. inr (p.0 h), λ h. elim h [ inl e ↦ cc | inr some_n ↦ p.1 some_n ])

-- Checks in a row, with their errors, and what comes behind them.
three_checks :
    (a b c : Bool) (e₁ e₂ e₃ : Error) (k : Result (Unit {0}))
    → ((do check a e₁; check b e₂; check c e₃; k) ≡ ok tt)
      ↔ ((a ≡ true) × (b ≡ true) × (c ≡ true) × (k ≡ ok tt))
three_checks a b c e₁ e₂ e₃ k = (λ h. ground arith, λ h. ground arith)

five_checks :
    (a b c d e : Bool) (e₁ e₂ e₃ e₄ e₅ : Error) (k : Result (Unit {0}))
    → ((do check a e₁; check b e₂; check c e₃; check d e₄; check e e₅; k) ≡ ok tt)
      ↔ ((a ≡ true) × (b ≡ true) × (c ≡ true) × (d ≡ true) × (e ≡ true) × (k ≡ ok tt))
five_checks a b c d e e₁ e₂ e₃ e₄ e₅ k = (λ h. ground arith, λ h. ground arith)

abbrev MemoriesOk : Module → Type 0
MemoriesOk m =
    (length m.tablesec ≤ 1)
    × (memory_count m ≤ 1)
    × ((m.datasec ≡ []) ⊎ (0 < memory_count m))
    × All (λ d. IsConstOf m ValType.i32 d.offset) m.datasec

check_memories_iff : (m : Module) → (check_memories m ≡ ok tt) ↔ MemoriesOk m
unfolding check_memories
check_memories_iff m =
    let offsets =
      for_each_iff (λ d. IsConstOf m ValType.i32 d.offset)
        (λ (d : Data). validate_constant_expression d.offset m ValType.i32)
        (λ d. validate_constant_expression_iff d.offset m ValType.i32) m.datasec in
    let checks =
      five_checks (leb (length m.tablesec) 1) (leb (length m.memorysec) 1)
        (leb (length m.imported_memory_types) 1)
        (is_empty m.memorysec || is_empty m.imported_memory_types)
        (is_empty m.datasec || has_memory m) _ _ _ _ _
        (for_each m.datasec (λ d. validate_constant_expression d.offset m ValType.i32)) in
    let single = at_most_one m.memorysec m.imported_memory_types in
    let segment = needs m.datasec (has_memory m) (memory_count m) (has_memory_iff m) in
    (
      λ h.
          let c = checks.0 h in
          (leb→le _ _ c.0, single.0 (c.1, c.2, c.3), segment.0 c.4, offsets.0 c.5),
      λ h.
          let one = single.1 h.1 in
          checks.1 (ground (arith, h.0), one.0, one.1, one.2, segment.1 h.2, offsets.1 h.3),
    )

abbrev TablesOk : Module → Type 0
TablesOk m =
    (length m.imported_table_types ≤ 1)
    × ((is_empty m.tablesec || is_empty m.imported_table_types) ≡ true)
    × ((m.elementsec ≡ []) ⊎ (0 < table_count m))
    × All (λ e. IsConstOf m ValType.i32 e.offset × All (λ i. i < get_function_count m) e.init)
        m.elementsec

check_tables_iff : (m : Module) → (check_tables m ≡ ok tt) ↔ TablesOk m
unfolding check_tables
check_tables_iff m =
    let entries =
      for_each_iff
        (λ (e : Element).
          IsConstOf m ValType.i32 e.offset × All (λ i. i < get_function_count m) e.init)
        (check_element m) (check_element_iff m) m.elementsec in
    let checks =
      three_checks (leb (length m.imported_table_types) 1)
        (is_empty m.tablesec || is_empty m.imported_table_types)
        (is_empty m.elementsec || has_table m) _ _ _ (for_each m.elementsec (check_element m)) in
    let segment = needs m.elementsec (has_table m) (table_count m) (has_table_iff m) in
    (
      λ h. let c = checks.0 h in (leb→le _ _ c.0, c.1, segment.0 c.2, entries.0 c.3),
      λ h. checks.1 (ground (arith, h.0), h.1, segment.1 h.2, entries.1 h.3),
    )

check_globals_iff :
    (m : Module)
    → (for_each m.globalsec (check_global m) ≡ ok tt)
      ↔ All
          (λ g. IsConstOf m g.type.value_type g.expression × IsImportedGet m g.expression)
          m.globalsec
check_globals_iff m =
    for_each_iff
      (λ (g : Global). IsConstOf m g.type.value_type g.expression × IsImportedGet m g.expression)
      (check_global m) (check_global_iff m) m.globalsec

-- The checks of `validate` behind the split of the imports.
abbrev checks_of : Module → ℕ → Result Module
checks_of m code_count = do
  check_function_types m
  check_memories m
  check_tables m
  for_each m.globalsec (check_global m)
  check (length m.funcsec == code_count) (parser_error function_and_code_differ)
  check_exports m [] m.exportsec
  check_start m m.startfunc
  ok m

seven_checks :
    {A : Type 0} (a b c d e f g : Result (Unit {0})) (m n : A)
    → ((do a; b; c; d; e; f; g; ok m) ≡ ok n) ↔ (
        ((a ≡ ok tt)
          × (b ≡ ok tt)
          × (c ≡ ok tt)
          × (d ≡ ok tt)
          × (e ≡ ok tt)
          × (f ≡ ok tt)
          × (g ≡ ok tt))
        × (m ≡ n))
seven_checks a b c d e f g m n = (λ h. ground arith, λ h. ground arith)

checks_of_iff :
    (m n : Module) (code_count : ℕ)
    → (checks_of m code_count ≡ ok n) ↔ (IsValid m code_count × (m ≡ n))
checks_of_iff m n code_count =
    let all =
      seven_checks (check_function_types m) (check_memories m) (check_tables m)
        (for_each m.globalsec (check_global m))
        (check (length m.funcsec == code_count) (parser_error function_and_code_differ))
        (check_exports m [] m.exportsec) (check_start m m.startfunc) m n in
    let count =
      check_iff (length m.funcsec == code_count) (parser_error function_and_code_differ) in
    (
      λ h.
          let c = (all.0 h).0 in
          let memories = (check_memories_iff m).0 c.1 in
          let tables = (check_tables_iff m).0 c.2 in
          let one_table : table_count m ≤ 1 =
            (at_most_one m.tablesec m.imported_table_types).0
              (ground arith, ground (arith, tables.0), tables.1) in
          let exported = (check_exports_iff m [] m.exportsec one_table memories.1).0 c.5 in
          (
            record {
              function_types = (check_function_types_iff m).0 c.0;
              one_table = one_table;
              one_memory = memories.1;
              data_memory = memories.2;
              data_offsets = memories.3;
              element_table = tables.2;
              elements = tables.3;
              globals = (check_globals_iff m).0 c.3;
              codes = (==_iff _ _).0 (count.0 c.4);
              exports = exported.0;
              names = exported.1;
              start = (check_start_iff m m.startfunc).0 c.6;
            },
            (all.0 h).1,
          ),
      λ h.
          let v = h.0 in
          let tables = (at_most_one m.tablesec m.imported_table_types).1 v.one_table in
          all.1 (
            (
              (check_function_types_iff m).1 v.function_types,
              (check_memories_iff m).1
                  (omega (arith, v.one_table), v.one_memory, v.data_memory, v.data_offsets),
              (check_tables_iff m).1
                  (omega (arith, v.one_table), tables.2, v.element_table, v.elements),
              (check_globals_iff m).1 v.globals,
              count.1 ((==_iff _ _).1 v.codes),
              (check_exports_iff m [] m.exportsec v.one_table v.one_memory).1 (v.exports, v.names),
              (check_start_iff m m.startfunc).1 v.start,
            ),
            h.1,
          ),
    )

-- The validation of a parsed module succeeds with a module exactly when splitting the imports
-- gives that module and it is valid: every index in range, at most one table and memory, typed
-- constant expressions, distinct export names, a start function without parameters and results.
pub validate_iff :
    (parsed m : Module) (code_count : ℕ)
    → (validate parsed code_count ≡ ok m)
      ↔ ((split_imports parsed.importsec parsed ≡ ok m) × IsValid m code_count)
unfolding validate
validate_iff parsed m code_count = bind_iff (split_imports parsed.importsec parsed)
  where
    bind_iff :
        (r : Result Module)
        → ((r >>= λ s. checks_of s code_count) ≡ ok m) ↔ ((r ≡ ok m) × IsValid m code_count)
    bind_iff (ok s) = (
      λ h.
          let both = (checks_of_iff s m code_count).0 h in
          (ap ok both.1, subst (λ x. IsValid x code_count) both.1 both.0),
      λ h.
          let same : s ≡ m = cc (h.0) in
          (checks_of_iff s m code_count).1 (subst (λ x. IsValid x code_count) (sym same) h.1, same),
    )
    bind_iff (err e) = (λ h. cc, λ h. cc (h.0))
