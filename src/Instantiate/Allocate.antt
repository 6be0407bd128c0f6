-- ===== src/Instantiate/Allocate.antt =====
-- The objects that `instantiate` of lib/fizzy/instantiate.cpp makes: the globals, the table and the
-- memory, and the segments that are copied into them.
use fizzy.Common.{
  ℕ, ◌+◌, ◌-◌, ◌*◌, ◌%◌, ◌^◌, List, [], ◌∷◌, ◌++◌, length, get_elem?, replicate, take, drop, ltb,
  leb, ◌||◌, if◌then◌else◌, Bool, true, false, Option, none, some, Result, ok, err, asserted,
  assert, Run, done, trapped, broken,
}
use fizzy.Common.{
  hard_memory_limit, memory_limit, imported_memory_limit, data_out_of_bounds, element_out_of_bounds,
  ◌>>=◌, ◌>>◌, parser_error, check, bad_alloc, assertion_failed,
}
use fizzy.Types.{
  Limits, Table, Memory, Global, ConstantExpression, constant, global_get, Data, Element,
}
use fizzy.Instance.{ExternalTable, ExternalMemory, ExternalGlobal, TableElement, Store, read_value}
use fizzy.Parser.Entries.{page_size}
use fizzy.Execute.Memory.{max_pages}
use fizzy.Execute.State.{Platform}
use fizzy.Instantiate.Matching.{refuse_if}

-- `Limits{}`
abbrev pub default_limits : Limits
default_limits = record { min = 0; max = none }

abbrev pub new_table : ℕ → List TableElement
new_table n = replicate n (record { instance = none; func_idx = 0 })

-- The pointer to the table, with its limits; a new table is the last object of the store.
unfoldable pub allocate_table :
    Platform → Store → List Table → List ExternalTable → Result (Store × Option ℕ × Limits)
allocate_table platform store module_tables imported_tables = do
  assert (leb (length module_tables + length imported_tables) 1)
  elim module_tables [
    | t ∷ ts ↦
        (check (platform.can_allocate_table t.limits.min) bad_alloc
          >> ok (
            record store { tables = store.tables ++ new_table t.limits.min ∷ [] },
            some (length store.tables),
            t.limits,
          ))
    | [] ↦ elim imported_tables [
      | t ∷ ts ↦ ok (store, t.table, t.limits)
      | [] ↦ ok (store, none, default_limits)
    ]
  ]

-- Whether limits in pages pass the hard limit.
abbrev pub above_limit : Limits → ℕ → Bool
above_limit limits memory_pages_limit =
    ltb memory_pages_limit limits.min
    || elim limits.max [ none ↦ false | some m ↦ ltb memory_pages_limit m ]

-- The product of the pages and their size has 32 bits.
abbrev pub memory_bytes : ℕ → ℕ
memory_bytes memory_min = memory_min * page_size % 2 ^ 32

abbrev pub new_memory : ℕ → List ℕ
new_memory memory_min = replicate (memory_bytes memory_min) 0

unfoldable pub allocate_memory :
    Platform → Store → List Memory → List ExternalMemory → ℕ → Result (Store × Option ℕ × Limits)
allocate_memory platform store module_memories imported_memories memory_pages_limit = do
  refuse_if (ltb max_pages memory_pages_limit) hard_memory_limit
  assert (leb (length module_memories + length imported_memories) 1)
  elim module_memories [
    | m ∷ ms ↦
        (refuse_if (above_limit m.limits memory_pages_limit) memory_limit
          >> (check (platform.can_resize (memory_bytes m.limits.min)) bad_alloc
              >> ok (
                record store { memories = store.memories ++ new_memory m.limits.min ∷ [] },
                some (length store.memories),
                m.limits,
              )))
    | [] ↦ elim imported_memories [
      | m ∷ ms ↦
          (refuse_if (above_limit m.limits memory_pages_limit) imported_memory_limit
            >> ok (store, m.data_pointer, m.limits))
      | [] ↦ ok (store, none, default_limits)
    ]
  ]

-- An access that the store must allow.
abbrev pub allowed {ℓ} : {A : Type ℓ} → Run A → Result A
allowed r = elim r [
  | done a ↦ ok a
  | trapped ↦ err (parser_error assertion_failed)
  | broken ↦ err (parser_error assertion_failed)
]

unfoldable pub eval_constant_expression :
    Store → ConstantExpression → List ExternalGlobal → List ℕ → Result ℕ
unfolding read_value
eval_constant_expression store (constant value) imported_globals globals = ok value
eval_constant_expression store (global_get global_idx) imported_globals globals = do
  assert (ltb global_idx (length imported_globals + length globals))
  if ltb global_idx (length imported_globals)
      then (asserted (get_elem? imported_globals global_idx) >>= λ g.
          allowed (read_value store g.value))
      else asserted (get_elem? globals (global_idx - length imported_globals))

-- A global of the module may be set to an imported global alone.
abbrev pub is_imported_or_constant : ConstantExpression → List ExternalGlobal → Bool
is_imported_or_constant (constant value) imported_globals = true
is_imported_or_constant (global_get i) imported_globals = ltb i (length imported_globals)

-- The values of the globals after the ones that there are.
unfoldable pub init_globals : Store → List ExternalGlobal → List ℕ → List Global → Result (List ℕ)
unfolding eval_constant_expression
init_globals store imported_globals globals [] = ok globals
init_globals store imported_globals globals (g ∷ gs) = do
  assert (is_imported_or_constant g.expression imported_globals)
  value ← eval_constant_expression store g.expression imported_globals globals
  init_globals store imported_globals (globals ++ value ∷ []) gs

-- `offset` of a segment, which is read as an i32.
abbrev pub segment_offset : Store → ConstantExpression → List ExternalGlobal → List ℕ → Result ℕ
segment_offset store expr imported_globals globals = do
  value ← eval_constant_expression store expr imported_globals globals
  ok (value % 2 ^ 32)

-- The offsets of the data segments in a memory of `memory_size` bytes.
unfoldable pub data_offsets : Store → List ExternalGlobal → List ℕ → ℕ → List Data → Result (List ℕ)
unfolding eval_constant_expression
data_offsets store imported_globals globals number_of_bytes [] = ok []
data_offsets store imported_globals globals number_of_bytes (d ∷ ds) = do
  offset ← segment_offset store d.offset imported_globals globals
  refuse_if (ltb number_of_bytes ((offset + length d.init) % 2 ^ 64)) data_out_of_bounds
  offsets ← data_offsets store imported_globals globals number_of_bytes ds
  ok (offset ∷ offsets)

-- The offsets of the element segments in a table of `number_of_elements`.
unfoldable pub element_offsets :
    Store → List ExternalGlobal → List ℕ → ℕ → List Element → Result (List ℕ)
unfolding eval_constant_expression
element_offsets store imported_globals globals number_of_elements [] = ok []
element_offsets store imported_globals globals number_of_elements (e ∷ es) = do
  offset ← segment_offset store e.offset imported_globals globals
  refuse_if (ltb number_of_elements ((offset + length e.init) % 2 ^ 64)) element_out_of_bounds
  offsets ← element_offsets store imported_globals globals number_of_elements es
  ok (offset ∷ offsets)

-- `std::copy` to the position `offset`.
unfoldable pub copy_to {ℓ} : {A : Type ℓ} → List A → ℕ → List A → List A
copy_to init offset xs = take offset xs ++ (init ++ drop (offset + length init) xs)

-- Each segment in its turn.
unfoldable pub fill_memory : List Data → List ℕ → List ℕ → List ℕ
unfolding copy_to
fill_memory (d ∷ ds) (offset ∷ offsets) bytes = fill_memory ds offsets (copy_to d.init offset bytes)
fill_memory [] offsets bytes = bytes
fill_memory (d ∷ ds) [] bytes = bytes

-- The functions of the instance with number `i`.
abbrev pub functions_of : ℕ → List ℕ → List TableElement
functions_of i [] = []
functions_of i (idx ∷ init) = record { instance = some i; func_idx = idx } ∷ functions_of i init

unfoldable pub fill_table : ℕ → List Element → List ℕ → List TableElement → List TableElement
unfolding copy_to
fill_table i (e ∷ es) (offset ∷ offsets) elements =
    fill_table i es offsets (copy_to (functions_of i e.init) offset elements)
fill_table i [] offsets elements = elements
fill_table i (e ∷ es) [] elements = elements
