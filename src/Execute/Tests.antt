-- ===== src/Execute/Tests.antt =====
-- Runs of small functions by `execute` of lib/fizzy/execute.cpp, and the theorems at concrete inputs.
use fizzy.Common.{
  ℕ, ◌+◌, ◌-◌, ◌≤◌, ◌<◌, ◌≡◌, ◌⊎◌, refl, arith, List, [], ◌∷◌, length, none, some, true, done,
  trapped, broken,
}
use fizzy.Types.{ValType, Limits, FuncType, Code}
use fizzy.Module.{Module, empty_module}
use fizzy.Instance.{Instance, Store, host_function}
use fizzy.Stack.{OperandStack}
use fizzy.Stack.Refines.{Represents}
use fizzy.Instructions.{instruction_type, instruction_max_align}
use fizzy.Execute.{execute, execute_code, find_case, numeric_cases}
use fizzy.Execute.Floats.{Arithmetic}
use fizzy.Execute.State.{gives, traps, failed, HostCall, Platform}
use fizzy.Execute.Depth.{with_hosts, SameHosts, execute_code-SameHosts}
use fizzy.Execute.Globals.{get_global, set_global}
use fizzy.Execute.Globals.Pointers.{Keeps}
use fizzy.Execute.Globals.RoundTrip.{set_global-get_global, set_global_other}
use fizzy.Instance.{get_instance, global_value}
use fizzy.Types.{GlobalType, constant}
use fizzy.Execute.Alignment.{max_align-HasAlignment}
use fizzy.Execute.Numeric.Accesses.{load_cases}
use fizzy.Common.{◌^◌, ◌&&◌, ltb, if◌then◌else◌}
use fizzy.Execute.Operands.{numeric_cases-Leaves}
use fizzy.Execute.Operators.{binary_op}
use fizzy.Execute.Operators.Takes.{with_room, Leaves}
use fizzy.Execute.Integers.{Builtins, add}
use fizzy.Execute.Memory
use fizzy.Execute.Memory.{load, load_from_memory, store_into_memory, grow_memory}
use fizzy.Execute.Memory.Access.{
  IsAccess, load_from_memory-Represents, store_into_memory-Represents,
  load_from_memory-store_into_memory,
}
use fizzy.Execute.Memory.Grow.{IsPaged, GrowsTo, grow_memory-IsPaged}

abbrev no_arithmetic : Arithmetic
no_arithmetic = record {
  sum = λ a b. a;
  difference = λ a b. a;
  product = λ a b. a;
  quotient = λ a b. a;
  fmod = λ a b. a;
  sqrt = λ a. a;
  from_int = λ a. 0;
}

abbrev no_counts : Builtins
no_counts = record { clz = λ w a. 0; ctz = λ w a. 0; popcount = λ w a. 0 }

abbrev platform : Platform
platform = record {
  host_call = λ f instance args depth store. gives (none, store);
  can_resize = λ bytes. true;
  can_allocate_table = λ elements. true;
  junk = 0;
  builtins = no_counts;
  single_arithmetic = no_arithmetic;
  double_arithmetic = no_arithmetic;
  demote = λ a. a;
  promote = λ a. a;
}

abbrev no_limits : Limits
no_limits = record { min = 0; max = none }

-- A function that adds its two parameters.
abbrev adder : Module
adder = record empty_module {
  typesec = record { inputs = ValType.i32 ∷ ValType.i32 ∷ []; outputs = ValType.i32 ∷ [] } ∷ [];
  funcsec = 0 ∷ [];
  codesec =
      record {
        max_stack_height = 2;
        local_count = 0;
        instructions = 0x20 ∷ 0 ∷ 0 ∷ 0 ∷ 0 ∷ 0x20 ∷ 1 ∷ 0 ∷ 0 ∷ 0 ∷ 0x6a ∷ 0x0b ∷ [];
      }
      ∷ [];
}

abbrev adder_instance : Instance
adder_instance = record {
  module_of = adder;
  memory = none;
  memory_limits = no_limits;
  memory_pages_limit = 0;
  table = none;
  table_limits = no_limits;
  globals = [];
  imported_functions = [];
  imported_globals = [];
}

abbrev store : Store
store = record { instances = adder_instance ∷ []; memories = []; tables = []; host_values = [] }

-- The sum wraps.
add_run : execute platform 9 0 0 (0xffffffff ∷ 3 ∷ []) 0 store ≡ gives (some 2, store)
unfolding execute
add_run = refl

-- A module that imports a function without parameters and results, and code that calls it.
abbrev caller : Module
caller = record empty_module {
  typesec = record { inputs = []; outputs = [] } ∷ [];
  imported_function_types = record { inputs = []; outputs = [] } ∷ [];
}

abbrev calling_code : Code
calling_code = record {
  max_stack_height = 0;
  local_count = 0;
  instructions = 0x10 ∷ 0 ∷ 0 ∷ 0 ∷ 0 ∷ 0x0b ∷ [];
}

abbrev caller_instance : Instance
caller_instance = record adder_instance {
  module_of = caller;
  imported_functions =
      record { function = host_function 0; input_types = []; output_types = [] } ∷ [];
}

abbrev caller_store : Store
caller_store = record store { instances = caller_instance ∷ [] }

-- A host that only answers between two depths.
abbrev shallow_host : ℕ → HostCall
shallow_host f instance args depth store =
    if ltb depth 2048 && ltb 2046 depth then gives (none, store) else failed

abbrev no_values : FuncType
no_values = record { inputs = []; outputs = [] }

shallow_host-SameHosts : SameHosts platform shallow_host (2046 + 1)
shallow_host-SameHosts f instance depth args store above below =
    let e : ltb depth 2048 ≡ true = ground (arith, below) in
    let e' : ltb 2046 depth ≡ true = ground (arith, above) in rw (e, e') refl

-- The call at the depth 2047 is allowed.
calls_host :
    execute_code platform (execute platform 9) 9 no_values calling_code 0 [] 2046 caller_store
    ≡ gives (none, caller_store)
unfolding execute_code execute
calls_host = refl

-- The one at the depth 2048 is a trap.
traps_at_limit :
    execute_code platform (execute platform 9) 9 no_values calling_code 0 [] 2047 caller_store
    ≡ traps caller_store
unfolding execute_code execute
traps_at_limit = refl

execute_code-SameHosts_example :
    execute_code platform (execute platform 9) 9 no_values calling_code 0 [] 2046 caller_store
    ≡ execute_code
        (with_hosts platform shallow_host)
        (execute (with_hosts platform shallow_host) 9)
        9
        no_values
        calling_code
        0
        []
        2046
        caller_store
execute_code-SameHosts_example =
    execute_code-SameHosts platform shallow_host 9 9 no_values calling_code 0 [] 2046 caller_store
      shallow_host-SameHosts

-- `i64_load`
max_align-HasAlignment_example : 2 ^ instruction_max_align 0x29 ≡ 8
unfolding load_cases
max_align-HasAlignment_example = max_align-HasAlignment 0x29 (omega arith)

-- One local, and the operands 4 and 2, with 4 at the top.
abbrev two_operands : OperandStack
two_operands = record { storage = 5 ∷ 2 ∷ 4 ∷ 0 ∷ []; bottom = 1; top_index = 2 }

two_operands-Represents : Represents two_operands (with_room (5 ∷ []) (4 ∷ 2 ∷ []) 1)
two_operands-Represents = record {
  spare = 0 ∷ [];
  layout = refl;
  bottom_at = refl;
  some_locals = omega arith;
  top_at = refl;
  spare_room = refl;
}

-- One local, and the operand 2.
abbrev one_operand : OperandStack
one_operand = record { storage = 5 ∷ 2 ∷ 0 ∷ []; bottom = 1; top_index = 1 }

one_operand-Represents : Represents one_operand (with_room (5 ∷ []) (2 ∷ []) 1)
one_operand-Represents = record {
  spare = 0 ∷ [];
  layout = refl;
  bottom_at = refl;
  some_locals = omega arith;
  top_at = refl;
  spare_room = refl;
}

add_case : find_case (numeric_cases platform) 0x6a ≡ some (binary_op 32 (add 32))
unfolding numeric_cases binary_op add
add_case = refl

numeric_cases-Leaves_example :
    (length (instruction_type 0x6a).outputs ≡ 1)
    × Leaves
        (binary_op 32 (add 32) two_operands)
        (5 ∷ [])
        []
        (1 + length (instruction_type 0x6a).inputs - 1)
unfolding instruction_type
numeric_cases-Leaves_example =
    numeric_cases-Leaves platform 0x6a (binary_op 32 (add 32)) two_operands (5 ∷ []) (4 ∷ 2 ∷ []) []
      1 add_case refl two_operands-Represents

abbrev eight_bytes : List ℕ
eight_bytes = 10 ∷ 11 ∷ 12 ∷ 13 ∷ 14 ∷ 15 ∷ 16 ∷ 17 ∷ []

four_at_one : IsAccess eight_bytes 4 1
four_at_one = record {
  memory_bound = omega arith;
  offset_bound = omega arith;
  some_bytes = omega arith;
  few_bytes = omega arith;
}

load_from_memory-Represents_example :
    ((2 + 1 + 4 ≤ 8)
      × (s' : OperandStack) × (load_from_memory 4 (λ v. v) 1 eight_bytes one_operand ≡ done s')
      × Represents s' (with_room (5 ∷ []) (load 4 eight_bytes 3 ∷ []) 1))
    ⊎ ((8 < 2 + 1 + 4) × (load_from_memory 4 (λ v. v) 1 eight_bytes one_operand ≡ trapped))
load_from_memory-Represents_example =
    load_from_memory-Represents eight_bytes 4 1 four_at_one one_operand (5 ∷ []) [] 2 1 (λ v. v)
      one_operand-Represents

store_into_memory-Represents_example :
    ((2 + 1 + 4 ≤ 8)
      × (s' : OperandStack) × (store_into_memory 4 1 eight_bytes two_operands
          ≡ done (Memory.store eight_bytes 3 4 4, s'))
      × Represents s' (with_room (5 ∷ []) [] 3))
    ⊎ ((8 < 2 + 1 + 4) × (store_into_memory 4 1 eight_bytes two_operands ≡ trapped))
store_into_memory-Represents_example =
    store_into_memory-Represents eight_bytes 4 1 four_at_one two_operands (5 ∷ []) [] 2 1 4
      two_operands-Represents

load_from_memory-store_into_memory_example :
    (memory' : List ℕ) × (s' : OperandStack) × (t' : OperandStack) × (store_into_memory 4 1
        eight_bytes two_operands
      ≡ done (memory', s'))
    × (length memory' ≡ 8)
    × (load_from_memory 4 (λ v. v) 1 memory' one_operand ≡ done t')
    × Represents t' (with_room (5 ∷ []) (4 ∷ []) 1)
load_from_memory-store_into_memory_example =
    load_from_memory-store_into_memory eight_bytes 4 1 two_operands one_operand (5 ∷ []) [] [] 4 2 1
      1 four_at_one two_operands-Represents one_operand-Represents (omega arith)

no_pages-IsPaged : IsPaged [] 5
no_pages-IsPaged = record { whole = refl; within = omega arith; limit_bound = omega arith }

grow_memory-IsPaged_example : GrowsTo (λ bytes. true) [] 6 5 (grow_memory (λ bytes. true) [] 6 5)
grow_memory-IsPaged_example =
    grow_memory-IsPaged (λ bytes. true) [] 6 5 no_pages-IsPaged (omega arith)

-- With 65536 pages, which the limit allows, an `assert` fails.
grows_to_all_pages : grow_memory (λ bytes. true) [] 65536 65536 ≡ broken
unfolding grow_memory
grows_to_all_pages = refl

abbrev variable : GlobalType
variable = record { value_type = ValType.i32; is_mutable = true }

-- An instance with a global of its own, and one that imports it and has another.
abbrev owner : Instance
owner = record adder_instance {
  module_of = record adder { globalsec = record { type = variable; expression = constant 5 } ∷ [] };
  globals = 5 ∷ [];
}

abbrev importer : Instance
importer = record adder_instance {
  module_of = record adder { globalsec = record { type = variable; expression = constant 9 } ∷ [] };
  globals = 9 ∷ [];
  imported_globals = record { value = some (global_value 0 0); type = variable } ∷ [];
}

abbrev shared_store : Store
shared_store = record store { instances = owner ∷ importer ∷ [] }

abbrev changed_store : Store
changed_store = record store { instances = record owner { globals = 7 ∷ [] } ∷ importer ∷ [] }

sets_imported : set_global shared_store 1 importer 0 7 ≡ done changed_store
unfolding set_global
sets_imported = refl

-- The owner sees what the importer writes.
owner_sees : get_global changed_store (record owner { globals = 7 ∷ [] }) 0 ≡ done 7
unfolding get_global
owner_sees = refl

set_global-get_global_example :
    (now : Instance) × (get_instance changed_store 1 ≡ done now)
    × Keeps importer now
    × (get_global changed_store now 0 ≡ done 7)
set_global-get_global_example =
    set_global-get_global shared_store 1 0 7 importer changed_store refl sets_imported

set_global_other_example :
    (now : Instance) × (get_instance changed_store 1 ≡ done now)
    × Keeps importer now
    × (get_global changed_store now 1 ≡ get_global shared_store importer 1)
set_global_other_example =
    set_global_other shared_store 1 0 1 7 importer changed_store refl sets_imported λ e. cc (e)
