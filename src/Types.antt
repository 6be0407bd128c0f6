-- ===== src/Types.antt =====
-- lib/fizzy/types.hpp: the types of a WebAssembly module. An index or a count is a number, a string or
-- a byte buffer is the list of its bytes, a vector is a list. A union with its tag is a data type.
use fizzy.Common.{ℕ, List, Option, Bool, true, false, ◌&&◌}
use fizzy.Common.{[], ◌∷◌}

pub data ValType : Type 0 where
  i32 i64 f32 f64 : ValType

unfoldable pub same_valtype : ValType → ValType → Bool
same_valtype i32 i32 = true
same_valtype i64 i64 = true
same_valtype f32 f32 = true
same_valtype f64 f64 = true
same_valtype _ _ = false

abbrev pub func_ref : ℕ
func_ref = 0x70

pub record FuncType : Type 0 where
  pub inputs : List ValType
  pub outputs : List ValType

unfoldable pub same_valtypes : List ValType → List ValType → Bool
unfolding same_valtype
same_valtypes [] [] = true
same_valtypes [] (t ∷ ts) = false
same_valtypes (s ∷ ss) [] = false
same_valtypes (s ∷ ss) (t ∷ ts) = same_valtype s t && same_valtypes ss ts

unfoldable pub same_functype : FuncType → FuncType → Bool
unfolding same_valtypes
same_functype lhs rhs = same_valtypes lhs.inputs rhs.inputs && same_valtypes lhs.outputs rhs.outputs

pub record Limits : Type 0 where
  pub min : ℕ
  pub max : Option ℕ

pub record Table : Type 0 where
  pub limits : Limits

pub record Memory : Type 0 where
  pub limits : Limits

pub record Locals : Type 0 where
  pub count : ℕ
  pub type : ValType

-- The constant is the number that the parser stores in the `Value`.
pub data ConstantExpression : Type 0 where
  constant : ℕ → ConstantExpression
  global_get : ℕ → ConstantExpression

pub record GlobalType : Type 0 where
  pub value_type : ValType
  pub is_mutable : Bool

pub record Global : Type 0 where
  pub type : GlobalType
  pub expression : ConstantExpression

pub data ExternalKind : Type 0 where
  function table memory global : ExternalKind

-- `kind` and the union `desc` of an import.
pub data ImportDesc : Type 0 where
  function_import : ℕ → ImportDesc
  table_import : Table → ImportDesc
  memory_import : Memory → ImportDesc
  global_import : GlobalType → ImportDesc

pub record Import : Type 0 where
  pub module_name : List ℕ
  pub name : List ℕ
  pub desc : ImportDesc

pub record Export : Type 0 where
  pub name : List ℕ
  pub kind : ExternalKind
  pub index : ℕ

pub record Element : Type 0 where
  pub offset : ConstantExpression
  pub init : List ℕ

pub record Code : Type 0 where
  pub max_stack_height : ℕ
  pub local_count : ℕ
  pub instructions : List ℕ

pub record Data : Type 0 where
  pub offset : ConstantExpression
  pub init : List ℕ
