-- ===== src/Parser/Entries.antt =====
-- The entries of the sections, as lib/fizzy/parser.cpp parses each.
use fizzy.Common.{ℕ, List, Option, none, some, Result, ok, err, parser_error, validation_error}
use fizzy.Common.{Bool, true, leb, ◌==◌, ◌||◌, ◌&&◌, if◌then◌else◌, length}
use fizzy.Common.{expected_functype, more_than_one_result, invalid_mutability}
use fizzy.Common.{unexpected_const_instruction, empty_const_expression, multiple_const_instructions}
use fizzy.Common.{const_type_mismatch, malformed_limits, invalid_limits, unexpected_elemtype}
use fizzy.Common.{memory_limit_exceeded, unexpected_import_kind, unexpected_export_kind}
use fizzy.Common.{invalid_table_index, invalid_memory_index}
use fizzy.Leb128.{leb128s_decode}
use fizzy.Types.{ValType, same_valtype, func_ref, FuncType, Limits, Table, Memory, Locals}
use fizzy.Types.{ConstantExpression, constant, GlobalType, Global, ExternalKind, ImportDesc, Import}
use fizzy.Types.{function_import, table_import, memory_import, global_import, Export, Element, Data}
use fizzy.Parser.Monad.{Parser, ◌>>=◌, ◌>>◌, return, throw, ensure, lift}
use fizzy.Parser.Basic.{
  parse_byte, parse_value, parse_u32, parse_vec, parse_valtype, take_bytes, parse_string,
}

-- lib/fizzy/limits.hpp
abbrev pub page_size : ℕ
page_size = 65536

abbrev pub max_memory_pages_limit : ℕ
max_memory_pages_limit = 65536

unfoldable pub parse_functype : Parser FuncType
unfolding parse_byte parse_vec parse_valtype
parse_functype = do
  kind ← parse_byte
  ensure (kind == 0x60) (parser_error (expected_functype kind))
  inputs ← parse_vec parse_valtype
  outputs ← parse_vec parse_valtype
  ensure (leb (length outputs) 1) (validation_error more_than_one_result)
  return (record { inputs = inputs; outputs = outputs })

unfoldable pub parse_global_type : Parser GlobalType
unfolding parse_byte parse_valtype
parse_global_type = do
  value_type ← parse_valtype
  mutability ← parse_byte
  ensure (mutability == 0x00 || mutability == 0x01) (parser_error (invalid_mutability mutability))
  return (record { value_type = value_type; is_mutable = mutability == 0x01 })

-- The instruction of a constant expression, by its opcode, with the type of the constant where the
-- instruction is a constant: global.get, i32.const, i64.const, f32.const, f64.const; `end` is 0x0b.
unfoldable pub parse_const_instruction : ℕ → Parser (ConstantExpression × Option ValType)
unfolding parse_u32 parse_value
parse_const_instruction opcode =
    if opcode == 0x23
    then (do global_index ← parse_u32; return (ConstantExpression.global_get global_index, none))
    else (if opcode == 0x41
        then (do value ← leb128s_decode 32; return (constant value, some ValType.i32))
        else (if opcode == 0x42
            then (do value ← leb128s_decode 64; return (constant value, some ValType.i64))
            else (if opcode == 0x43
                then (do value ← parse_value 4; return (constant value, some ValType.f32))
                else (if opcode == 0x44
                    then (do value ← parse_value 8; return (constant value, some ValType.f64))
                    else (if opcode == 0x0b
                        then throw (validation_error empty_const_expression)
                        else throw (validation_error (unexpected_const_instruction opcode)))))))

-- `!constant_actual_type.has_value() || constant_actual_type == expected_type`
abbrev pub type_agrees : Option ValType → ValType → Bool
type_agrees none expected = true
type_agrees (some actual) expected = same_valtype actual expected

unfoldable pub parse_constant_expression : ValType → Parser ConstantExpression
unfolding parse_byte parse_const_instruction
parse_constant_expression expected_type = do
  opcode ← parse_byte
  (result, constant_actual_type) ← parse_const_instruction opcode
  end_opcode ← parse_byte
  ensure (end_opcode == 0x0b) (validation_error multiple_const_instructions)
  ensure (type_agrees constant_actual_type expected_type) (validation_error const_type_mismatch)
  return result

unfoldable pub parse_global : Parser Global
unfolding parse_global_type parse_constant_expression
parse_global = do
  type ← parse_global_type
  expression ← parse_constant_expression type.value_type
  return (record { type = type; expression = expression })

unfoldable pub parse_limits : Parser Limits
unfolding parse_byte parse_u32
parse_limits = do
  kind ← parse_byte
  if kind == 0x00
      then (do min ← parse_u32; return (record { min = min; max = none }))
      else (if kind == 0x01
          then (do
            min ← parse_u32
            max ← parse_u32
            ensure (leb min max) (validation_error malformed_limits)
            return (record { min = min; max = some max }))
          else throw (parser_error (invalid_limits kind)))

unfoldable pub parse_table : Parser Table
unfolding parse_byte parse_limits
parse_table = do
  elemtype ← parse_byte
  ensure (elemtype == func_ref) (parser_error (unexpected_elemtype elemtype))
  limits ← parse_limits
  return (record { limits = limits })

-- `!max.has_value() || *max <= MaxMemoryPagesLimit`
abbrev pub max_in_limit : Option ℕ → Bool
max_in_limit none = true
max_in_limit (some max) = leb max max_memory_pages_limit

unfoldable pub parse_memory : Parser Memory
unfolding parse_limits
parse_memory = do
  limits ← parse_limits
  ensure (leb limits.min max_memory_pages_limit && max_in_limit limits.max)
      (validation_error memory_limit_exceeded)
  return (record { limits = limits })

unfoldable pub parse_import_desc : ℕ → Parser ImportDesc
unfolding parse_u32 parse_table parse_memory parse_global_type
parse_import_desc kind =
    if kind == 0x00
    then (do index ← parse_u32; return (function_import index))
    else (if kind == 0x01
        then (do table ← parse_table; return (table_import table))
        else (if kind == 0x02
            then (do memory ← parse_memory; return (memory_import memory))
            else (if kind == 0x03
                then (do global ← parse_global_type; return (global_import global))
                else throw (parser_error (unexpected_import_kind kind)))))

unfoldable pub parse_import : Parser Import
unfolding parse_string parse_byte parse_import_desc
parse_import = do
  module_name ← parse_string
  name ← parse_string
  kind ← parse_byte
  desc ← parse_import_desc kind
  return (record { module_name = module_name; name = name; desc = desc })

unfoldable pub export_kind : ℕ → Result ExternalKind
export_kind kind =
    if kind == 0x00
    then ok ExternalKind.function
    else (if kind == 0x01
        then ok ExternalKind.table
        else (if kind == 0x02
            then ok ExternalKind.memory
            else (if kind == 0x03
                then ok ExternalKind.global
                else err (parser_error (unexpected_export_kind kind)))))

unfoldable pub parse_export : Parser Export
unfolding parse_string parse_byte export_kind parse_u32
parse_export = do
  name ← parse_string
  byte ← parse_byte
  kind ← lift (export_kind byte)
  index ← parse_u32
  return (record { name = name; kind = kind; index = index })

unfoldable pub parse_element : Parser Element
unfolding parse_u32 parse_constant_expression parse_vec
parse_element = do
  table_index ← parse_u32
  ensure (table_index == 0) (validation_error (invalid_table_index table_index))
  offset ← parse_constant_expression ValType.i32
  init ← parse_vec parse_u32
  return (record { offset = offset; init = init })

unfoldable pub parse_locals : Parser Locals
unfolding parse_u32 parse_valtype
parse_locals = do
  count ← parse_u32
  type ← parse_valtype
  return (record { count = count; type = type })

-- The bytes of one function, which are parsed at the end.
unfoldable pub parse_code_view : Parser (List ℕ)
unfolding parse_u32 take_bytes
parse_code_view = do code_size ← parse_u32; take_bytes code_size

unfoldable pub parse_data : Parser Data
unfolding parse_u32 parse_constant_expression take_bytes
parse_data = do
  memory_index ← parse_u32
  ensure (memory_index == 0) (validation_error (invalid_memory_index memory_index))
  offset ← parse_constant_expression ValType.i32
  size ← parse_u32
  init ← take_bytes size
  return (record { offset = offset; init = init })
