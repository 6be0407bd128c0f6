-- ===== src/Module.antt =====
-- lib/fizzy/module.hpp: a parsed module and its accessors. An accessor that the source guards by an
-- `assert` gives `none` where the assertion fails.
use fizzy.Common.{ℕ, ◌+◌, ◌-◌, List, [], ◌∷◌, Option, none, some, Bool, true, false, ◌||◌, not}
use fizzy.Common.{ltb, if◌then◌else◌, length, get_elem?}
use fizzy.Types.{FuncType, Import, Table, Memory, Global, GlobalType, Export, Element, Code, Data}
use mathlib.Core.Option

pub record Module : Type 0 where
  pub typesec : List FuncType
  pub importsec : List Import
  pub funcsec : List ℕ
  pub tablesec : List Table
  pub memorysec : List Memory
  pub globalsec : List Global
  pub exportsec : List Export
  pub startfunc : Option ℕ
  pub elementsec : List Element
  pub codesec : List Code
  pub datasec : List Data
  pub imported_function_types : List FuncType
  pub imported_table_types : List Table
  pub imported_memory_types : List Memory
  pub imported_global_types : List GlobalType

abbrev pub empty_module : Module
empty_module = record {
  typesec = [];
  importsec = [];
  funcsec = [];
  tablesec = [];
  memorysec = [];
  globalsec = [];
  exportsec = [];
  startfunc = none;
  elementsec = [];
  codesec = [];
  datasec = [];
  imported_function_types = [];
  imported_table_types = [];
  imported_memory_types = [];
  imported_global_types = [];
}

-- `v.empty()`
abbrev pub is_empty {ℓ} : {A : Type ℓ} → List A → Bool
is_empty [] = true
is_empty (x ∷ xs) = false

abbrev pub get_function_count : Module → ℕ
get_function_count m = length m.imported_function_types + length m.funcsec

unfoldable pub get_function_type : Module → ℕ → Option FuncType
get_function_type m idx =
    if ltb idx (length m.imported_function_types)
    then get_elem? m.imported_function_types idx
    else elim (get_elem? m.funcsec (idx - length m.imported_function_types)) [
      | none ↦ none
      | some type_idx ↦ get_elem? m.typesec type_idx
    ]

abbrev pub get_global_count : Module → ℕ
get_global_count m = length m.imported_global_types + length m.globalsec

unfoldable pub get_global_type : Module → ℕ → Option GlobalType
get_global_type m idx =
    if ltb idx (length m.imported_global_types)
    then get_elem? m.imported_global_types idx
    else Option.map (λ g. g.type) (get_elem? m.globalsec (idx - length m.imported_global_types))

unfoldable pub get_code : Module → ℕ → Option Code
get_code m func_idx =
    if ltb func_idx (length m.imported_function_types)
    then none
    else get_elem? m.codesec (func_idx - length m.imported_function_types)

abbrev pub has_table : Module → Bool
has_table m = not (is_empty m.tablesec) || not (is_empty m.imported_table_types)

abbrev pub has_memory : Module → Bool
has_memory m = not (is_empty m.memorysec) || not (is_empty m.imported_memory_types)
