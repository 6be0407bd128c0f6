-- ===== src/Instance.antt =====
-- lib/fizzy/instantiate.hpp: instances, and what they share. The objects that pointers of the source
-- point to stand in a store, a pointer is their index there, and a null pointer is `none`.
use fizzy.Common.{ℕ, List, Option, none, some, get_elem?, set, Run, present, ◌then◌, done, broken}
use fizzy.Types.{ValType, Limits, GlobalType}
use fizzy.Module.{Module}

-- A function of an instance, or the number of a host function with its context.
pub data ExecuteFunction : Type 0 where
  wasm_function : (instance : ℕ) (func_idx : ℕ) → ExecuteFunction
  host_function : ℕ → ExecuteFunction

pub record ExternalFunction : Type 0 where
  pub function : ExecuteFunction
  pub input_types : List ValType
  pub output_types : List ValType

-- `instance` is `none` where the element is not initialized.
pub record TableElement : Type 0 where
  pub instance : Option ℕ
  pub func_idx : ℕ

pub record ExternalTable : Type 0 where
  pub table : Option ℕ
  pub limits : Limits

pub record ExternalMemory : Type 0 where
  pub data_pointer : Option ℕ
  pub limits : Limits

-- What a `Value*` of a global points to: a value of the host, or a global of an instance.
pub data ValuePointer : Type 0 where
  host_value : ℕ → ValuePointer
  global_value : (instance : ℕ) (index : ℕ) → ValuePointer

pub record ExternalGlobal : Type 0 where
  pub value : Option ValuePointer
  pub type : GlobalType

pub record Instance : Type 0 where
  pub module_of : Module
  pub memory : Option ℕ
  pub memory_limits : Limits
  pub memory_pages_limit : ℕ
  pub table : Option ℕ
  pub table_limits : Limits
  pub globals : List ℕ
  pub imported_functions : List ExternalFunction
  pub imported_globals : List ExternalGlobal

pub record Store : Type 0 where
  pub instances : List Instance
  pub memories : List (List ℕ)
  pub tables : List (List TableElement)
  pub host_values : List ℕ

-- What a pointer points to; there is nothing behind a null pointer.
abbrev pub pointee {ℓ} : {A : Type ℓ} → List A → Option ℕ → Run A
pointee objects none = broken
pointee objects (some p) = present (get_elem? objects p)

abbrev pub get_instance : Store → ℕ → Run Instance
get_instance store i = present (get_elem? store.instances i)

-- A write through the pointer to a memory.
abbrev pub set_memory : Store → ℕ → List ℕ → Store
set_memory store m bytes = record store { memories = set store.memories m bytes }

abbrev pub set_instance : Store → ℕ → Instance → Store
set_instance store i instance = record store { instances = set store.instances i instance }

-- `*value`
unfoldable pub read_value : Store → Option ValuePointer → Run ℕ
read_value store none = broken
read_value store (some (host_value i)) = present (get_elem? store.host_values i)
read_value store (some (global_value i index)) =
    get_instance store i then λ instance. present (get_elem? instance.globals index)

-- `*value = v`
unfoldable pub write_value : Store → Option ValuePointer → ℕ → Run Store
write_value store none v = broken
write_value store (some (host_value i)) v = present (get_elem? store.host_values i) then λ old.
    done (record store { host_values = set store.host_values i v })
write_value store (some (global_value i index)) v = get_instance store i then λ instance.
    present (get_elem? instance.globals index) then λ old.
    done (set_instance store i (record instance { globals = set instance.globals index v }))
