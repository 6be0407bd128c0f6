-- ===== src/Parser/Validate.antt =====
-- The validation checks of `parse` in lib/fizzy/parser.cpp, after the sections are read.
pub mod Spec
pub mod Checks
pub mod Entries
pub mod Exports
pub mod Accepts
use fizzy.Common.{ℕ, ◌+◌, List, [], ◌∷◌, ◌++◌, Option, none, some, Result, ok, err, parser_error}
use fizzy.Common.{
  validation_error, Error, check, ◌>>=◌, ◌>>◌, Bool, true, false, ltb, leb, ◌==◌, not, ◌||◌, ◌&&◌,
}
use fizzy.Common.{length, const_type_mismatch, const_global_index, const_mutable_global}
use fizzy.Common.{imported_function_type, function_type_index, too_many_tables, too_many_memories}
use fizzy.Common.{
  too_many_imported_memories, both_memories, data_without_memory, too_many_imported_tables,
}
use fizzy.Common.{both_tables, element_without_table, element_function_index, global_not_imported}
use fizzy.Common.{
  function_and_code_differ, exported_function_index, exported_table_index, assertion_failed,
}
use fizzy.Common.{exported_memory_index, exported_global_index, duplicate_export_name}
use fizzy.Common.{start_function_index, start_function_type, get_elem?}
use fizzy.Types.{ValType, same_valtype, FuncType, ConstantExpression, constant, Global, GlobalType}
use fizzy.Types.{ExternalKind, function, table, memory, global, Import, Export, Element, Data}
use fizzy.Types.{ImportDesc, function_import, table_import, memory_import, global_import}
use fizzy.Module.{Module, is_empty, get_function_count, get_function_type, get_global_count}
use fizzy.Module.{get_global_type, has_table, has_memory}
use fizzy.Parser.Sections.{same_bytes}
use fizzy.Common.{asserted}

unfoldable pub validate_constant_expression :
    ConstantExpression → Module → ValType → Result (Unit {0})
unfolding get_global_type same_valtype
validate_constant_expression (constant value) m expected_type = ok tt
validate_constant_expression (ConstantExpression.global_get global_idx) m expected_type = do
  check (ltb global_idx (get_global_count m)) (validation_error const_global_index)
  global_type ← asserted (get_global_type m global_idx)
  check (not global_type.is_mutable) (validation_error const_mutable_global)
  check (same_valtype global_type.value_type expected_type) (validation_error const_type_mismatch)

-- `for (const auto& item : items) body(item);`
unfoldable pub for_each {ℓ} : {A : Type ℓ} → List A → (A → Result (Unit {0})) → Result (Unit {0})
for_each [] body = ok tt
for_each (item ∷ items) body = do body item; for_each items body

-- One import of the loop that splits the imports by kind.
unfoldable pub split_import : ImportDesc → Module → Result Module
split_import (function_import type_idx) m = elim (get_elem? m.typesec type_idx) [
  | none ↦ err (validation_error imported_function_type)
  | some t ↦ ok (record m { imported_function_types = m.imported_function_types ++ (t ∷ []) })
]
split_import (table_import t) m =
    ok (record m { imported_table_types = m.imported_table_types ++ (t ∷ []) })
split_import (memory_import t) m =
    ok (record m { imported_memory_types = m.imported_memory_types ++ (t ∷ []) })
split_import (global_import t) m =
    ok (record m { imported_global_types = m.imported_global_types ++ (t ∷ []) })

unfoldable pub split_imports : List Import → Module → Result Module
unfolding split_import
split_imports [] m = ok m
split_imports (import ∷ imports) m = do m' ← split_import import.desc m; split_imports imports m'

unfoldable pub check_function_types : Module → Result (Unit {0})
unfolding for_each
check_function_types m =
    for_each m.funcsec
      (λ i. check (ltb i (length m.typesec)) (validation_error function_type_index))

-- The counts of tables and memories, the data segments and the element segments.
unfoldable pub check_memories : Module → Result (Unit {0})
unfolding for_each validate_constant_expression
check_memories m = do
  check (leb (length m.tablesec) 1) (validation_error too_many_tables)
  check (leb (length m.memorysec) 1) (validation_error too_many_memories)
  check (leb (length m.imported_memory_types) 1) (validation_error too_many_imported_memories)
  check (is_empty m.memorysec || is_empty m.imported_memory_types) (validation_error both_memories)
  check (is_empty m.datasec || has_memory m) (validation_error data_without_memory)
  for_each m.datasec (λ data_. validate_constant_expression data_.offset m ValType.i32)

unfoldable pub check_element : Module → Element → Result (Unit {0})
unfolding for_each validate_constant_expression
check_element m element = do
  validate_constant_expression element.offset m ValType.i32
  for_each element.init
      (λ i. check (ltb i (get_function_count m)) (validation_error element_function_index))

unfoldable pub check_tables : Module → Result (Unit {0})
unfolding for_each check_element
check_tables m = do
  check (leb (length m.imported_table_types) 1) (validation_error too_many_imported_tables)
  check (is_empty m.tablesec || is_empty m.imported_table_types) (validation_error both_tables)
  check (is_empty m.elementsec || has_table m) (validation_error element_without_table)
  for_each m.elementsec (check_element m)

-- A global may be initialised by an imported global alone.
abbrev pub from_import : ConstantExpression → Module → Bool
from_import (constant value) m = true
from_import (ConstantExpression.global_get i) m = ltb i (length m.imported_global_types)

unfoldable pub check_global : Module → Global → Result (Unit {0})
unfolding validate_constant_expression
check_global m g = do
  validate_constant_expression g.expression m g.type.value_type
  check (from_import g.expression m) (validation_error global_not_imported)

unfoldable pub check_export : Module → ExternalKind → ℕ → Result (Unit {0})
check_export m function i =
    check (ltb i (get_function_count m)) (validation_error exported_function_index)
check_export m table i = check (i == 0 && has_table m) (validation_error exported_table_index)
check_export m memory i = check (i == 0 && has_memory m) (validation_error exported_memory_index)
check_export m global i =
    check (ltb i (get_global_count m)) (validation_error exported_global_index)

-- The `unordered_set` of the names seen so far, as the list of them.
abbrev pub has_name : List (List ℕ) → List ℕ → Bool
has_name [] name = false
has_name (seen ∷ names) name = same_bytes seen name || has_name names name

unfoldable pub check_exports : Module → List (List ℕ) → List Export → Result (Unit {0})
unfolding check_export
check_exports m names [] = ok tt
check_exports m names (e ∷ es) = do
  check_export m e.kind e.index
  check (not (has_name names e.name)) (validation_error (duplicate_export_name e.name))
  check_exports m (e.name ∷ names) es

unfoldable pub check_start : Module → Option ℕ → Result (Unit {0})
unfolding get_function_type
check_start m none = ok tt
check_start m (some startfunc) = do
  check (ltb startfunc (get_function_count m)) (validation_error start_function_index)
  func_type ← asserted (get_function_type m startfunc)
  check (is_empty func_type.inputs && is_empty func_type.outputs)
      (validation_error start_function_type)

-- All the checks, in order; `code_count` is the number of entries of the code section.
unfoldable pub validate : Module → ℕ → Result Module
unfolding split_imports check_function_types check_memories check_tables check_global for_each
    check_exports check_start
validate parsed code_count = do
  m ← split_imports parsed.importsec parsed
  check_function_types m
  check_memories m
  check_tables m
  for_each m.globalsec (check_global m)
  check (length m.funcsec == code_count) (parser_error function_and_code_differ)
  check_exports m [] m.exportsec
  check_start m m.startfunc
  ok m
