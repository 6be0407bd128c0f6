-- ===== src/Parser/Validate/Spec.antt =====
-- When a module is valid, apart from the checks of lib/fizzy/parser.cpp.
use fizzy.Common.{
  ℕ, ◌+◌, ◌≤◌, ◌<◌, ◌≡◌, ◌≢◌, ◌⊎◌, List, [], ◌∷◌, Option, none, some, false, length, All,
}
use fizzy.Types.{ValType, FuncType, ConstantExpression, constant, GlobalType}
use fizzy.Types.{ExternalKind, function, table, memory, global, Export}
use fizzy.Module.{Module, get_function_count, get_function_type, get_global_count, get_global_type}

-- A constant expression of type `t`: an immutable global of that type, or a constant.
abbrev pub IsConstOf : Module → ValType → ConstantExpression → Type 0
IsConstOf m t (constant value) = Unit {0}
IsConstOf m t (ConstantExpression.global_get i) =
    (g : GlobalType) × (get_global_type m i ≡ some g) × (g.is_mutable ≡ false) × (g.value_type ≡ t)

abbrev pub IsImportedGet : Module → ConstantExpression → Type 0
IsImportedGet m (constant value) = Unit {0}
IsImportedGet m (ConstantExpression.global_get i) = i < length m.imported_global_types

-- The tables, and the memories, that a module defines and imports.
abbrev pub table_count : Module → ℕ
table_count m = length m.tablesec + length m.imported_table_types

abbrev pub memory_count : Module → ℕ
memory_count m = length m.memorysec + length m.imported_memory_types

abbrev pub IsExportOf : Module → ExternalKind → ℕ → Type 0
IsExportOf m function i = i < get_function_count m
IsExportOf m table i = i < table_count m
IsExportOf m memory i = i < memory_count m
IsExportOf m global i = i < get_global_count m

-- No name stands twice, and none is one of `names`.
abbrev pub AreFresh : List (List ℕ) → List Export → Type 0
AreFresh names [] = Unit {0}
AreFresh names (e ∷ es) = All (λ n. n ≢ e.name) names × AreFresh (e.name ∷ names) es

abbrev pub IsStart : Module → Option ℕ → Type 0
IsStart m none = Unit {0}
IsStart m (some i) =
    (t : FuncType) × (get_function_type m i ≡ some t) × (t.inputs ≡ []) × (t.outputs ≡ [])

pub record IsValid (m : Module) (code_count : ℕ) : Type 0 where
  pub function_types : All (λ i. i < length m.typesec) m.funcsec
  pub one_table : table_count m ≤ 1
  pub one_memory : memory_count m ≤ 1
  pub data_memory : (m.datasec ≡ []) ⊎ (0 < memory_count m)
  pub data_offsets : All (λ d. IsConstOf m ValType.i32 d.offset) m.datasec
  pub element_table : (m.elementsec ≡ []) ⊎ (0 < table_count m)
  pub elements :
      All
        (λ e. IsConstOf m ValType.i32 e.offset × All (λ i. i < get_function_count m) e.init)
        m.elementsec
  pub globals :
      All
        (λ g. IsConstOf m g.type.value_type g.expression × IsImportedGet m g.expression)
        m.globalsec
  pub codes : length m.funcsec ≡ code_count
  pub exports : All (λ e. IsExportOf m e.kind e.index) m.exportsec
  pub names : AreFresh [] m.exportsec
  pub start : IsStart m m.startfunc
