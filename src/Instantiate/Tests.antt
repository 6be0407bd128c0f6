-- ===== src/Instantiate/Tests.antt =====
-- Runs of `instantiate` of lib/fizzy/instantiate.cpp, and the theorems at concrete inputs.
use fizzy.Common.{ℕ, ◌≡◌, ◌↔◌, ◌≤◌, refl, arith, List, [], ◌∷◌, length, get_elem?, some, ok}
use fizzy.Types.{Limits, ExternalKind, Export, Data, constant}
use fizzy.Module.{Module, empty_module}
use fizzy.Common.{◌++◌, none}
use fizzy.Instance.{Instance, Store}
use fizzy.Common.{true}
use fizzy.Execute.Floats.{Arithmetic}
use fizzy.Execute.State.{gives, Platform}
use fizzy.Instantiate.{Provided, build_instance}
use fizzy.Instantiate.Built.{IsBuilt, build_instance-IsBuilt}
use fizzy.Parser.Validate.{validate}
use fizzy.Parser.Validate.Spec.{IsExportOf}
use fizzy.Instantiate.Matching.{match_limits}
use fizzy.Instantiate.Allocate.{data_offsets, fill_memory, element_offsets, fill_table, new_table}
use fizzy.Instantiate.Elements.{last_element, fill_table-last_element}
use fizzy.Instance.{TableElement}
use fizzy.Types.{Element}
use fizzy.Instantiate.Bounds.{IsBelowMax, IsWithinMax, match_limits_iff}
use fizzy.Instantiate.Exports.{find_export}
use fizzy.Instantiate.Exports.Finds.{find_export-validate}
use fizzy.Instantiate.Segments.{last_written, fill_memory-last_written}

-- A module that exports its one function as "f".
abbrev exporting : Module
exporting = record empty_module {
  typesec = record { inputs = []; outputs = [] } ∷ [];
  funcsec = 0 ∷ [];
  exportsec = record { name = 0x66 ∷ []; kind = ExternalKind.function; index = 0 } ∷ [];
}

abbrev the_export : Export
the_export = record { name = 0x66 ∷ []; kind = ExternalKind.function; index = 0 }

accepts_exporting : validate exporting 1 ≡ ok exporting
unfolding validate
accepts_exporting = refl

find_export-validate_example :
    (find_export exporting ExternalKind.function (0x66 ∷ []) ≡ some 0)
    × IsExportOf exporting ExternalKind.function 0
find_export-validate_example =
    find_export-validate exporting exporting 1 0 the_export accepts_exporting refl

abbrev one_to_three : Limits
one_to_three = record { min = 1; max = some 3 }

match_limits_iff_example :
    (match_limits one_to_three one_to_three ≡ ok tt)
    ↔ (IsBelowMax 1 (some 3) × (1 ≤ 1) × IsWithinMax (some 3) (some 3))
match_limits_iff_example = match_limits_iff one_to_three one_to_three

abbrev empty_store : Store
empty_store = record { instances = []; memories = []; tables = []; host_values = [] }

-- Two segments that overlap.
abbrev segments : List Data
segments =
    record { offset = constant 1; init = 7 ∷ 8 ∷ [] }
    ∷ record { offset = constant 2; init = 9 ∷ [] }
    ∷ []

abbrev four_zeros : List ℕ
four_zeros = 0 ∷ 0 ∷ 0 ∷ 0 ∷ []

segments_fit : data_offsets empty_store [] [] (length four_zeros) segments ≡ ok (1 ∷ 2 ∷ [])
unfolding data_offsets
segments_fit = refl

filled : fill_memory segments (1 ∷ 2 ∷ []) four_zeros ≡ 0 ∷ 7 ∷ 9 ∷ 0 ∷ []
unfolding fill_memory
filled = refl

fill_memory-last_written_example :
    (length (fill_memory segments (1 ∷ 2 ∷ []) four_zeros) ≡ length four_zeros)
    × (get_elem? (fill_memory segments (1 ∷ 2 ∷ []) four_zeros) 2
        ≡ last_written segments (1 ∷ 2 ∷ []) 2 (get_elem? four_zeros 2))
fill_memory-last_written_example =
    fill_memory-last_written empty_store [] [] segments (1 ∷ 2 ∷ []) four_zeros 2
      (omega arith, (omega arith, tt)) segments_fit

abbrev nothing_provided : Provided
nothing_provided = record {
  imported_functions = [];
  imported_tables = [];
  imported_memories = [];
  imported_globals = [];
}

-- The module with the code of its function, which does nothing.
abbrev compiled : Module
compiled = record exporting {
  codesec = record { max_stack_height = 0; local_count = 0; instructions = 0x0b ∷ [] } ∷ [];
}

abbrev compiled_instance : Instance
compiled_instance = record {
  module_of = compiled;
  memory = none;
  memory_limits = record { min = 0; max = none };
  memory_pages_limit = 4096;
  table = none;
  table_limits = record { min = 0; max = none };
  globals = [];
  imported_functions = [];
  imported_globals = [];
}

abbrev store_after : Store
store_after = record {
  instances = compiled_instance ∷ [];
  memories = [];
  tables = [];
  host_values = [];
}

abbrev no_arithmetic : Arithmetic
no_arithmetic = record {
  sum = λ a b. a;
  difference = λ a b. a;
  product = λ a b. a;
  quotient = λ a b. a;
  fmod = λ a b. a;
  sqrt = λ a. a;
  from_int = λ a. 0;
}

abbrev platform : Platform
platform = record {
  host_call = λ f instance args depth store. gives (none, store);
  can_resize = λ bytes. true;
  can_allocate_table = λ elements. true;
  junk = 0;
  builtins = record { clz = λ w a. 0; ctz = λ w a. 0; popcount = λ w a. 0 };
  single_arithmetic = no_arithmetic;
  double_arithmetic = no_arithmetic;
  demote = λ a. a;
  promote = λ a. a;
}

builds_compiled :
    build_instance platform empty_store compiled nothing_provided 4096 ≡ ok store_after
unfolding build_instance
builds_compiled = refl

build_instance-IsBuilt_example :
    (i : Instance) × (store_after.instances ≡ empty_store.instances ++ i ∷ [])
    × IsBuilt compiled nothing_provided 4096 i
build_instance-IsBuilt_example =
    build_instance-IsBuilt platform empty_store compiled nothing_provided 4096 store_after
      builds_compiled

-- Two element segments that overlap, for the instance with number 3.
abbrev element_segments : List Element
element_segments =
    record { offset = constant 0; init = 7 ∷ 8 ∷ [] }
    ∷ record { offset = constant 1; init = 9 ∷ [] }
    ∷ []

abbrev three_elements : List TableElement
three_elements = new_table 3

elements_fit :
    element_offsets empty_store [] [] (length three_elements) element_segments ≡ ok (0 ∷ 1 ∷ [])
unfolding element_offsets
elements_fit = refl

fill_table-last_element_example :
    (length (fill_table 3 element_segments (0 ∷ 1 ∷ []) three_elements) ≡ length three_elements)
    × (get_elem? (fill_table 3 element_segments (0 ∷ 1 ∷ []) three_elements) 1
        ≡ last_element 3 element_segments (0 ∷ 1 ∷ []) 1 (get_elem? three_elements 1))
fill_table-last_element_example =
    fill_table-last_element empty_store [] [] element_segments (0 ∷ 1 ∷ []) three_elements 3 1
      (omega arith, (omega arith, tt)) elements_fit
