-- ===== src/Instantiate/Exports.antt =====
-- The imports by name and the exports of an instance, in lib/fizzy/instantiate.cpp.
pub mod Finds
use fizzy.Common.{
  ℕ, ◌-◌, List, [], ◌∷◌, length, get_elem?, ltb, not, ◌&&◌, if◌then◌else◌, Bool, true, false,
  Option, none, some, Result, ok, err, asserted, instantiate_error, ◌>>=◌, ◌>>◌, Run, done, present,
  ◌then◌,
}
use fizzy.Common.{
  import_required, import_inputs, import_has_output, import_output, import_value_type,
  import_mutability,
}
use fizzy.Types.{
  ValType, FuncType, GlobalType, ExternalKind, function, table, memory, global, Import,
  function_import, table_import, memory_import, global_import, same_valtype, same_valtypes,
}
use fizzy.Module.{Module, is_empty, get_function_type}
use fizzy.Instance.{
  ExecuteFunction, wasm_function, ExternalFunction, ExternalTable, ExternalMemory, ExternalGlobal,
  Instance, ValuePointer, global_value,
}
use fizzy.Parser.Sections.{same_bytes}
use fizzy.Instantiate.Matching.{refuse_if, same_bool}

pub record ImportedFunction : Type 0 where
  pub module_name : List ℕ
  pub name : List ℕ
  pub inputs : List ValType
  pub output : Option ValType
  pub function : ExecuteFunction

pub record ImportedGlobal : Type 0 where
  pub module_name : List ℕ
  pub name : List ℕ
  pub value : Option ValuePointer
  pub type : ValType
  pub is_mutable : Bool

-- `std::find_if`
unfoldable pub find_if {ℓ} : {A : Type ℓ} → (A → Bool) → List A → Option A
find_if test [] = none
find_if test (x ∷ xs) = if test x then some x else find_if test xs

-- `std::find_if` that must find an import of the name.
abbrev pub required {ℓ} : {A : Type ℓ} → List ℕ → List ℕ → Option A → Result A
required module_name name found = elim found [
  | some a ↦ ok a
  | none ↦ err (instantiate_error (import_required module_name name))
]

-- Whether the type of the module gives no result where the imported function gives one.
abbrev pub extra_output : List ValType → Option ValType → Bool
extra_output outputs output = is_empty outputs && elim output [ none ↦ false | some t ↦ true ]

-- Whether the type of the module gives another result than the imported function.
abbrev pub other_output : List ValType → Option ValType → Bool
unfolding same_valtype
other_output [] output = false
other_output (t ∷ ts) none = true
other_output (t ∷ ts) (some u) = not (same_valtype t u)

unfoldable pub find_imported_function :
    List ℕ → List ℕ → FuncType → List ImportedFunction → Result ExternalFunction
unfolding find_if same_valtypes other_output
find_imported_function module_name name module_func_type imported_functions = do
  it ← required module_name name (
      find_if (λ f. same_bytes module_name f.module_name && same_bytes name f.name)
        imported_functions)
  refuse_if (not (same_valtypes module_func_type.inputs it.inputs)) (import_inputs module_name name)
  refuse_if (extra_output module_func_type.outputs it.output) (import_has_output module_name name)
  refuse_if (other_output module_func_type.outputs it.output) (import_output module_name name)
  ok (record {
    function = it.function;
    input_types = module_func_type.inputs;
    output_types = module_func_type.outputs;
  })

unfoldable pub find_imported_global :
    List ℕ → List ℕ → GlobalType → List ImportedGlobal → Result ExternalGlobal
unfolding find_if same_valtype
find_imported_global module_name name module_global_type imported_globals = do
  it ← required module_name name (
      find_if (λ g. same_bytes module_name g.module_name && same_bytes name g.name)
        imported_globals)
  refuse_if (not (same_valtype module_global_type.value_type it.type))
      (import_value_type module_name name)
  refuse_if (not (same_bool module_global_type.is_mutable it.is_mutable))
      (import_mutability module_name name)
  ok (record { value = it.value; type = module_global_type })

unfoldable pub resolve_functions :
    Module → List ImportedFunction → List Import → Result (List ExternalFunction)
unfolding find_imported_function
resolve_functions m imported_functions [] = ok []
resolve_functions m imported_functions (import ∷ imports) = elim import.desc [
  | function_import function_type_index ↦
      (asserted (get_elem? m.typesec function_type_index) >>= λ module_func_type.
      find_imported_function import.module_name import.name module_func_type imported_functions
      >>= λ f. resolve_functions m imported_functions imports >>= λ fs. ok (f ∷ fs))
  | table_import t ↦ resolve_functions m imported_functions imports
  | memory_import t ↦ resolve_functions m imported_functions imports
  | global_import t ↦ resolve_functions m imported_functions imports
]

unfoldable pub resolve_imported_functions :
    Module → List ImportedFunction → Result (List ExternalFunction)
unfolding resolve_functions
resolve_imported_functions m imported_functions = resolve_functions m imported_functions m.importsec

unfoldable pub resolve_globals : List ImportedGlobal → List Import → Result (List ExternalGlobal)
unfolding find_imported_global
resolve_globals imported_globals [] = ok []
resolve_globals imported_globals (import ∷ imports) = elim import.desc [
  | global_import t ↦
      (find_imported_global import.module_name import.name t imported_globals >>= λ g.
      resolve_globals imported_globals imports >>= λ gs. ok (g ∷ gs))
  | function_import i ↦ resolve_globals imported_globals imports
  | table_import t ↦ resolve_globals imported_globals imports
  | memory_import t ↦ resolve_globals imported_globals imports
]

unfoldable pub resolve_imported_globals :
    Module → List ImportedGlobal → Result (List ExternalGlobal)
unfolding resolve_globals
resolve_imported_globals m imported_globals = resolve_globals imported_globals m.importsec

-- `export_.kind == kind`
unfoldable pub same_kind : ExternalKind → ExternalKind → Bool
same_kind function function = true
same_kind table table = true
same_kind memory memory = true
same_kind global global = true
same_kind _ _ = false

unfoldable pub find_export : Module → ExternalKind → List ℕ → Option ℕ
unfolding find_if same_kind
find_export m kind name =
    elim (find_if (λ e. same_kind e.kind kind && same_bytes e.name name) m.exportsec) [
      | none ↦ none
      | some e ↦ some e.index
    ]

-- An optional result that is there.
abbrev pub found {ℓ} : {A : Type ℓ} → Option ℕ → (ℕ → Run A) → Run (Option A)
found opt_index f = elim opt_index [ none ↦ done none | some i ↦ f i then λ a. done (some a) ]

unfoldable pub find_exported_function_index : Module → List ℕ → Option ℕ
unfolding find_export
find_exported_function_index m name = find_export m function name

-- In the instance with number `i`, as in the following ones.
unfoldable pub find_exported_function : ℕ → Instance → List ℕ → Run (Option ExternalFunction)
unfolding find_export get_function_type
find_exported_function i instance name = found (find_export instance.module_of function name) λ idx.
    present (get_function_type instance.module_of idx) then λ type. done (record {
      function = wasm_function i idx;
      input_types = type.inputs;
      output_types = type.outputs;
    })

unfoldable pub find_exported_global : ℕ → Instance → List ℕ → Run (Option ExternalGlobal)
unfolding find_export
find_exported_global i instance name =
    found (find_export instance.module_of global name) λ global_idx.
      let imported = length instance.imported_globals in
      if ltb global_idx imported
      then present (get_elem? instance.imported_globals global_idx)
      else (present (get_elem? instance.module_of.globalsec (global_idx - imported)) then λ g.
          done (record { value = some (global_value i (global_idx - imported)); type = g.type }))

unfoldable pub find_exported_table : Instance → List ℕ → Option ExternalTable
unfolding find_export
find_exported_table instance name = elim (find_export instance.module_of table name) [
  | none ↦ none
  | some i ↦ some (record { table = instance.table; limits = instance.table_limits })
]

unfoldable pub find_exported_memory : Instance → List ℕ → Option ExternalMemory
unfolding find_export
find_exported_memory instance name = elim (find_export instance.module_of memory name) [
  | none ↦ none
  | some i ↦ some (record { data_pointer = instance.memory; limits = instance.memory_limits })
]
