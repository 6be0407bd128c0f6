-- ===== src/Common/Errors.antt =====
-- What a function of the library returns that may throw: lib/fizzy/exceptions.hpp. A `Fault` is the
-- text of the exception, with the numbers and the names that the text shows, where it shows any.
-- `bad_alloc` is thrown by the standard library where there is no storage.
use Prim.Native.Nat.{ℕ}
use mathlib.Core.List.{List}
use mathlib.Core.Option.{Option, none, some}
use mathlib.Core.Bool.{Bool, true, false}
use fizzy.Common.Ints.{ℤ}

pub data Fault : Type 0 where
  unexpected_eof : Fault
  leb_unused_bits_set leb_unused_bits_not_sign leb_too_many_bytes : Fault
  invalid_utf8 : Fault
  invalid_valtype : ℕ → Fault
  expected_functype : ℕ → Fault
  more_than_one_result : Fault
  invalid_mutability : ℕ → Fault
  unexpected_const_instruction : ℕ → Fault
  empty_const_expression multiple_const_instructions : Fault
  const_type_mismatch const_global_index const_mutable_global : Fault
  malformed_limits : Fault
  invalid_limits unexpected_elemtype : ℕ → Fault
  memory_limit_exceeded : Fault
  unexpected_import_kind unexpected_export_kind : ℕ → Fault
  invalid_table_index invalid_memory_index : ℕ → Fault
  too_many_locals malformed_function_size : Fault
  invalid_module_prefix out_of_order_section : Fault
  unknown_section : ℕ → Fault
  incorrect_section_size : (id : ℕ) (difference : ℤ) → Fault
  imported_function_type function_type_index : Fault
  too_many_tables too_many_memories too_many_imported_memories : Fault
  both_memories data_without_memory too_many_imported_tables both_tables : Fault
  element_without_table element_function_index global_not_imported : Fault
  function_and_code_differ : Fault
  exported_function_index exported_table_index exported_memory_index exported_global_index : Fault
  duplicate_export_name : (name : List ℕ) → Fault
  start_function_index start_function_type : Fault
  stack_underflow type_mismatch too_many_results invalid_local_index : Fault
  invalid_instruction : ℕ → Fault
  unexpected_else missing_else_result invalid_label_index inconsistent_labels : Fault
  call_function_index call_indirect_table call_indirect_type call_indirect_table_index : Fault
  accessing_global mutating_global excessive_alignment memory_required memory_index : Fault
  assertion_failed : Fault
  functions_provided globals_provided : (required provided : ℕ) → Fault
  function_type_differs : ℕ → Fault
  external_limits_crossed external_min_below external_max_above : Fault
  one_imported_table table_not_imported table_not_provided table_is_null table_size : Fault
  one_imported_memory memory_not_imported memory_not_provided memory_is_null : Fault
  memory_not_in_pages memory_size : Fault
  global_value_type global_mutability global_is_null : ℕ → Fault
  hard_memory_limit memory_limit imported_memory_limit : Fault
  data_out_of_bounds element_out_of_bounds start_function_failed : Fault
  import_required import_inputs import_has_output import_output :
      (module_name name : List ℕ) → Fault
  import_value_type import_mutability : (module_name name : List ℕ) → Fault

pub data Error : Type 0 where
  parser_error validation_error instantiate_error : Fault → Error
  bad_alloc : Error

pub data Result {ℓ} (A : Type ℓ) : Type ℓ where
  ok : A → Result A
  err : Error → Result A

-- What is left of a result when the error is forgotten.
abbrev pub to_option {ℓ} : {A : Type ℓ} → Result A → Option A
to_option (ok a) = some a
to_option (err e) = none

-- One step, then what follows it unless it threw.
abbrev pub ◌>>=◌ {ℓ κ} : {A : Type ℓ} {B : Type κ} → Result A → (A → Result B) → Result B
step >>= next = elim step [ ok value ↦ next value | err thrown ↦ err thrown ]

-- The same for a step without a value.
abbrev pub ◌>>◌ {ℓ} : {B : Type ℓ} → Result (Unit {0}) → Result B → Result B
step >> rest = elim step [ ok _ ↦ rest | err thrown ↦ err thrown ]

infixl 5 ◌>>=◌ ◌>>◌
-- `if (!test) throw e;`
abbrev pub check : Bool → Error → Result (Unit {0})
check test e = elim test [ true ↦ ok tt | false ↦ err e ]

-- `assert`: the program may rely on the test.
abbrev pub assert : Bool → Result (Unit {0})
assert test = check test (parser_error assertion_failed)

-- A value that an `assert` says is there.
abbrev pub asserted {ℓ} : {A : Type ℓ} → Option A → Result A
asserted o = elim o [ some a ↦ ok a | none ↦ err (parser_error assertion_failed) ]
