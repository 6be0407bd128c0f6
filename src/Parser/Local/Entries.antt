-- ===== src/Parser/Local/Entries.antt =====
-- The entries of the sections of lib/fizzy/parser.cpp are local.
use fizzy.Common.{ℕ, ◌==◌}
use fizzy.Types.{ValType}
use fizzy.Parser.Basic.{parse_byte}
use fizzy.Parser.Entries.{
  parse_functype, parse_global_type, parse_const_instruction, parse_constant_expression,
  parse_global,
}
use fizzy.Parser.Entries.{
  parse_limits, parse_table, parse_memory, parse_import_desc, parse_import, parse_export,
}
use fizzy.Parser.Entries.{parse_element, parse_locals, parse_code_view, parse_data}
use fizzy.Parser.Local.{
  IsLocal, return-IsLocal, throw-IsLocal, ensure-IsLocal, lift-IsLocal, if-IsLocal, >>=-IsLocal,
}
use fizzy.Parser.Local.Basic.{
  parse_byte-IsLocal, parse_value-IsLocal, parse_u32-IsLocal, parse_vec-IsLocal,
  parse_valtype-IsLocal,
}
use fizzy.Parser.Local.Basic.{take_bytes-IsLocal, parse_string-IsLocal, leb128s_decode-IsLocal}

ruleset local_rules = (
  return-IsLocal, throw-IsLocal, ensure-IsLocal, lift-IsLocal, >>=-IsLocal, parse_byte-IsLocal,
  parse_value-IsLocal, parse_u32-IsLocal, parse_vec-IsLocal, parse_valtype-IsLocal,
  take_bytes-IsLocal, parse_string-IsLocal, leb128s_decode-IsLocal,
)

pub parse_functype-IsLocal : IsLocal parse_functype
unfolding parse_functype
parse_functype-IsLocal = search local_rules depth 14

pub parse_global_type-IsLocal : IsLocal parse_global_type
unfolding parse_global_type
parse_global_type-IsLocal = search (local_rules) depth 14

pub parse_const_instruction-IsLocal : (opcode : ℕ) → IsLocal (parse_const_instruction opcode)
unfolding parse_const_instruction
parse_const_instruction-IsLocal opcode = if-IsLocal (opcode == 0x23) _ _ (search local_rules) (
    if-IsLocal (opcode == 0x41) _ _ (search local_rules) (
      if-IsLocal (opcode == 0x42) _ _ (search local_rules) (
        if-IsLocal (opcode == 0x43) _ _ (search local_rules) (
          if-IsLocal (opcode == 0x44) _ _ (search local_rules)
            (if-IsLocal (opcode == 0x0b) _ _ (throw-IsLocal _) (throw-IsLocal _))))))

pub parse_constant_expression-IsLocal : (t : ValType) → IsLocal (parse_constant_expression t)
unfolding parse_constant_expression
parse_constant_expression-IsLocal t = search (local_rules, parse_const_instruction-IsLocal) depth 14

pub parse_global-IsLocal : IsLocal parse_global
unfolding parse_global
parse_global-IsLocal =
    search (local_rules, parse_global_type-IsLocal, parse_constant_expression-IsLocal) depth 14

pub parse_limits-IsLocal : IsLocal parse_limits
unfolding parse_limits
parse_limits-IsLocal = >>=-IsLocal parse_byte _ parse_byte-IsLocal λ kind.
    if-IsLocal (kind == 0x00) _ _ (search local_rules)
      (if-IsLocal (kind == 0x01) _ _ (search local_rules depth 10) (throw-IsLocal _))

pub parse_table-IsLocal : IsLocal parse_table
unfolding parse_table
parse_table-IsLocal = search (local_rules, parse_limits-IsLocal) depth 14

pub parse_memory-IsLocal : IsLocal parse_memory
unfolding parse_memory
parse_memory-IsLocal = search (local_rules, parse_limits-IsLocal) depth 14

pub parse_import_desc-IsLocal : (kind : ℕ) → IsLocal (parse_import_desc kind)
unfolding parse_import_desc
parse_import_desc-IsLocal kind = if-IsLocal (kind == 0x00) _ _ (search local_rules) (
    if-IsLocal (kind == 0x01) _ _ (search (local_rules, parse_table-IsLocal)) (
      if-IsLocal (kind == 0x02) _ _ (search (local_rules, parse_memory-IsLocal)) (
        if-IsLocal (kind == 0x03) _ _ (search (local_rules, parse_global_type-IsLocal))
          (throw-IsLocal _))))

pub parse_import-IsLocal : IsLocal parse_import
unfolding parse_import
parse_import-IsLocal = search (local_rules, parse_import_desc-IsLocal) depth 14

pub parse_export-IsLocal : IsLocal parse_export
unfolding parse_export
parse_export-IsLocal = search (local_rules) depth 14

pub parse_element-IsLocal : IsLocal parse_element
unfolding parse_element
parse_element-IsLocal = search (local_rules, parse_constant_expression-IsLocal) depth 14

pub parse_locals-IsLocal : IsLocal parse_locals
unfolding parse_locals
parse_locals-IsLocal = search (local_rules) depth 14

pub parse_code_view-IsLocal : IsLocal parse_code_view
unfolding parse_code_view
parse_code_view-IsLocal = search (local_rules) depth 14

pub parse_data-IsLocal : IsLocal parse_data
unfolding parse_data
parse_data-IsLocal = search (local_rules, parse_constant_expression-IsLocal) depth 14

-- The parser of each kind of section entry reads a prefix of its input and looks no further: with
-- other bytes behind what it read it reads the same entry and leaves those bytes.
pub entries-IsLocal :
    IsLocal parse_functype
    × IsLocal parse_import
    × IsLocal parse_table
    × IsLocal parse_memory
    × IsLocal parse_global
    × IsLocal parse_export
    × IsLocal parse_element
    × IsLocal parse_code_view
    × IsLocal parse_data
    × IsLocal parse_locals
entries-IsLocal = (
  parse_functype-IsLocal, parse_import-IsLocal, parse_table-IsLocal, parse_memory-IsLocal,
  parse_global-IsLocal, parse_export-IsLocal, parse_element-IsLocal, parse_code_view-IsLocal,
  parse_data-IsLocal, parse_locals-IsLocal,
)
