-- ===== src/Instantiate/Matching.antt =====
-- The comparison of the imports of a module with what is provided, in lib/fizzy/instantiate.cpp.
use fizzy.Common.{
  ℕ, suc, ◌*◌, ◌%◌, ◌^◌, List, [], ◌∷◌, length, ltb, leb, ◌==◌, not, ◌&&◌, ◌||◌, Bool, true, false,
  Option, none, some, Result, ok, err, Fault, instantiate_error, check, asserted, assert, get_elem?,
}
use fizzy.Common.{
  functions_provided, function_type_differs, external_limits_crossed, external_min_below,
  external_max_above, one_imported_table, table_not_imported, table_not_provided, table_is_null,
  table_size, one_imported_memory, memory_not_imported, memory_not_provided, memory_is_null,
  memory_not_in_pages, memory_size, globals_provided, global_value_type, global_mutability,
  global_is_null,
}
use fizzy.Common.{◌>>=◌, ◌>>◌}
use fizzy.Types.{FuncType, Limits, Table, Memory, GlobalType, same_valtypes, same_valtype}
use fizzy.Instance.{ExternalFunction, ExternalTable, ExternalMemory, ExternalGlobal, Store}
use fizzy.Parser.Entries.{page_size}

-- `throw instantiate_error` where the test holds.
abbrev pub refuse_if : Bool → Fault → Result (Unit {0})
refuse_if test fault = check (not test) (instantiate_error fault)

abbrev pub same_bool : Bool → Bool → Bool
same_bool a b = a && b || not a && not b

-- `limits.max.has_value() && value > *limits.max`
abbrev pub above_max : ℕ → Option ℕ → Bool
above_max value none = false
above_max value (some m) = ltb m value

-- The loop of `match_imported_functions` from index `i` on.
unfoldable pub match_functions : ℕ → List FuncType → List ExternalFunction → Result (Unit {0})
unfolding same_valtypes
match_functions i (t ∷ ts) (f ∷ fs) = do
  refuse_if
      (not (same_valtypes t.inputs f.input_types) || not (same_valtypes t.outputs f.output_types))
      (function_type_differs i)
  match_functions (suc i) ts fs
match_functions i [] fs = ok tt
match_functions i (t ∷ ts) [] = ok tt

unfoldable pub match_imported_functions : List FuncType → List ExternalFunction → Result (Unit {0})
unfolding match_functions
match_imported_functions module_imported_types imported_functions = do
  refuse_if (not (length module_imported_types == length imported_functions))
      (functions_provided (length module_imported_types) (length imported_functions))
  match_functions 0 module_imported_types imported_functions

unfoldable pub match_limits : Limits → Limits → Result (Unit {0})
match_limits external_limits module_limits = do
  refuse_if (above_max external_limits.min external_limits.max) external_limits_crossed
  refuse_if (ltb external_limits.min module_limits.min) external_min_below
  refuse_if
      (elim module_limits.max [
        | none ↦ false
        | some module_max ↦ elim external_limits.max [
          | none ↦ true
          | some external_max ↦ ltb module_max external_max
        ]
      ])
      external_max_above

-- The object behind a pointer, or the error of a null pointer.
abbrev pub provided {ℓ} : {A : Type ℓ} → List A → Option ℕ → Fault → Result A
provided objects none fault = err (instantiate_error fault)
provided objects (some p) fault = asserted (get_elem? objects p)

-- The only table, against the only one of the module.
unfoldable pub match_table : Store → Table → ExternalTable → Result (Unit {0})
unfolding match_limits
match_table store expected t = do
  match_limits t.limits expected.limits
  elements ← provided store.tables t.table table_is_null
  refuse_if (ltb (length elements) t.limits.min || above_max (length elements) t.limits.max)
      table_size

unfoldable pub match_imported_tables : Store → List Table → List ExternalTable → Result (Unit {0})
unfolding match_table
match_imported_tables store module_imported_tables imported_tables = do
  assert (leb (length module_imported_tables) 1)
  refuse_if (ltb 1 (length imported_tables)) one_imported_table
  elim module_imported_tables [
    | [] ↦ elim imported_tables [ [] ↦ ok tt | t ∷ ts ↦ err (instantiate_error table_not_imported) ]
    | expected ∷ es ↦ elim imported_tables [
      | [] ↦ err (instantiate_error table_not_provided)
      | t ∷ ts ↦ match_table store expected t
    ]
  ]

-- `value > *max * PageSize`, with the product in 32 bits.
abbrev pub above_max_pages : ℕ → Option ℕ → Bool
above_max_pages value none = false
above_max_pages value (some m) = ltb (m * page_size % 2 ^ 32) value

unfoldable pub match_memory : Store → Memory → ExternalMemory → Result (Unit {0})
unfolding match_limits
match_memory store expected m = do
  match_limits m.limits expected.limits
  bytes ← provided store.memories m.data_pointer memory_is_null
  refuse_if (not (length bytes % page_size == 0)) memory_not_in_pages
  refuse_if
      (ltb (length bytes) (m.limits.min * page_size % 2 ^ 32)
        || above_max_pages (length bytes) m.limits.max)
      memory_size

unfoldable pub match_imported_memories :
    Store → List Memory → List ExternalMemory → Result (Unit {0})
unfolding match_memory
match_imported_memories store module_imported_memories imported_memories = do
  assert (leb (length module_imported_memories) 1)
  refuse_if (ltb 1 (length imported_memories)) one_imported_memory
  elim module_imported_memories [
    | [] ↦ elim imported_memories [
      | [] ↦ ok tt
      | t ∷ ts ↦ err (instantiate_error memory_not_imported)
    ]
    | expected ∷ es ↦ elim imported_memories [
      | [] ↦ err (instantiate_error memory_not_provided)
      | m ∷ ms ↦ match_memory store expected m
    ]
  ]

-- The loop of `match_imported_globals` from index `i` on.
unfoldable pub match_globals : ℕ → List GlobalType → List ExternalGlobal → Result (Unit {0})
unfolding same_valtype
match_globals i (t ∷ ts) (g ∷ gs) = do
  refuse_if (not (same_valtype g.type.value_type t.value_type)) (global_value_type i)
  refuse_if (not (same_bool g.type.is_mutable t.is_mutable)) (global_mutability i)
  refuse_if (elim g.value [ none ↦ true | some p ↦ false ]) (global_is_null i)
  match_globals (suc i) ts gs
match_globals i [] gs = ok tt
match_globals i (t ∷ ts) [] = ok tt

unfoldable pub match_imported_globals : List GlobalType → List ExternalGlobal → Result (Unit {0})
unfolding match_globals
match_imported_globals module_imported_globals imported_globals = do
  refuse_if (not (length module_imported_globals == length imported_globals))
      (globals_provided (length module_imported_globals) (length imported_globals))
  match_globals 0 module_imported_globals imported_globals
