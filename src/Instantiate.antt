-- ===== src/Instantiate.antt =====
-- lib/fizzy/instantiate.cpp: `instantiate`.
pub mod Matching
pub mod Allocate
pub mod Exports
pub mod Bounds
pub mod Segments
pub mod Elements
pub mod Built
mod Tests
use fizzy.Common.{
  ℕ, ◌+◌, List, [], ◌∷◌, ◌++◌, length, set, get_elem?, ltb, leb, ◌==◌, not, ◌||◌, Bool, true, false,
  Option, none, some, Result, ok, err, Error, parser_error, instantiate_error, assertion_failed,
  start_function_failed, assert, asserted, ◌>>=◌, ◌>>◌,
}
use fizzy.Types.{Limits, Data, Element}
use fizzy.Module.{Module, is_empty}
use fizzy.Instance.{
  ExternalFunction, ExternalTable, ExternalMemory, ExternalGlobal, Instance, Store, TableElement,
}
use fizzy.Execute.{execute}
use fizzy.Execute.State.{Outcome, gives, traps, failed, exhausted, Returned, Platform}
use Matching.{
  match_imported_functions, match_imported_tables, match_imported_memories, match_imported_globals,
}
use Allocate.{
  allocate_table, allocate_memory, init_globals, data_offsets, element_offsets, fill_memory,
  fill_table,
}

-- The imports that the caller provides.
pub record Provided : Type 0 where
  pub imported_functions : List ExternalFunction
  pub imported_tables : List ExternalTable
  pub imported_memories : List ExternalMemory
  pub imported_globals : List ExternalGlobal

unfoldable pub match_imports : Store → Module → Provided → Result (Unit {0})
unfolding match_imported_functions match_imported_tables match_imported_memories
    match_imported_globals
match_imports store m p = do
  assert (length m.funcsec == length m.codesec)
  match_imported_functions m.imported_function_types p.imported_functions
  match_imported_tables store m.imported_table_types p.imported_tables
  match_imported_memories store m.imported_memory_types p.imported_memories
  match_imported_globals m.imported_global_types p.imported_globals

-- The hard limit of the memory: its own maximum, where it has one.
unfoldable pub adjust_limit : Limits → ℕ → Result ℕ
adjust_limit limits memory_pages_limit = elim limits.max [
  | none ↦ ok memory_pages_limit
  | some m ↦ (assert (leb m memory_pages_limit) >> ok m)
]

-- The object behind a pointer that segments use; without segments none is needed.
abbrev pub target {ℓ κ} :
    {A : Type ℓ} {B : Type κ} → List A → List (List B) → Option ℕ → Result (List B)
target [] objects p = elim p [ none ↦ ok [] | some i ↦ asserted (get_elem? objects i) ]
target (segment ∷ segments) objects none = err (parser_error assertion_failed)
target (segment ∷ segments) objects (some i) = asserted (get_elem? objects i)

-- A change of the object behind a pointer, where there is one.
abbrev pub replaced {ℓ} : {A : Type ℓ} → List A → Option ℕ → A → List A
replaced objects none a = objects
replaced objects (some i) a = set objects i a

-- The checks and the objects, and last the copies of the segments: the store with the new instance.
unfoldable pub build_instance : Platform → Store → Module → Provided → ℕ → Result Store
unfolding match_imports init_globals allocate_table allocate_memory adjust_limit data_offsets
    element_offsets fill_memory fill_table
build_instance platform store m p memory_pages_limit = do
  match_imports store m p
  globals ← init_globals store p.imported_globals [] m.globalsec
  (store₁, table, table_limits) ← allocate_table platform store m.tablesec p.imported_tables
  (store₂, memory, memory_limits) ←
      allocate_memory platform store₁ m.memorysec p.imported_memories memory_pages_limit
  limit ← adjust_limit memory_limits memory_pages_limit
  bytes ← target m.datasec store₂.memories memory
  datasec_offsets ← data_offsets store p.imported_globals globals (length bytes) m.datasec
  elements ← target m.elementsec store₂.tables table
  elementsec_offsets ←
      element_offsets store p.imported_globals globals (length elements) m.elementsec
  ok (record {
    instances =
        store₂.instances
        ++ record {
          module_of = m;
          memory = memory;
          memory_limits = memory_limits;
          memory_pages_limit = limit;
          table = table;
          table_limits = table_limits;
          globals = globals;
          imported_functions = p.imported_functions;
          imported_globals = p.imported_globals;
        }
          ∷ [];
    memories = replaced store₂.memories memory (fill_memory m.datasec datasec_offsets bytes);
    tables =
        replaced store₂.tables table
          (fill_table (length store₂.instances) m.elementsec elementsec_offsets elements);
    host_values = store₂.host_values;
  })

-- The instance, or the exception with what is left in the store.
pub data Instantiated : Type 0 where
  instantiated : (instance : ℕ) → Store → Instantiated
  thrown : Error → Store → Instantiated
  out_of_fuel : Instantiated

-- What the run of the start function makes of an instance that is built.
unfoldable pub after_start : ℕ → Store → Outcome Returned → Instantiated
after_start i store (gives (result, store')) = instantiated i store'
after_start i store (traps store') = thrown (instantiate_error start_function_failed) store'
after_start i store failed = thrown (parser_error assertion_failed) store
after_start i store exhausted = out_of_fuel

unfoldable pub run_start : Platform → ℕ → Module → ℕ → ℕ → Store → Instantiated
unfolding execute after_start
run_start platform fuel m imported i store = elim m.startfunc [
  | none ↦ instantiated i store
  | some funcidx ↦ elim (ltb funcidx (imported + length m.funcsec)) [
    | true ↦ after_start i store (execute platform fuel i funcidx [] 0 store)
    | false ↦ thrown (parser_error assertion_failed) store
  ]
]

-- The new instance is the last one of the store. An exception before the segments are copied leaves
-- the store as it was.
unfoldable pub instantiate : Platform → ℕ → Store → Module → Provided → ℕ → Instantiated
unfolding build_instance run_start
instantiate platform fuel store m p memory_pages_limit =
    elim (build_instance platform store m p memory_pages_limit) [
      | ok store' ↦
          run_start platform fuel m (length p.imported_functions) (length store.instances) store'
      | err e ↦ thrown e store
    ]
