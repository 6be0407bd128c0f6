-- ===== src/Parser/Expr/Tests.antt =====
-- Runs of the parser of function bodies in lib/fizzy/parser_expr.cpp, and the theorems at concrete
-- inputs.
use fizzy.Common.{ℕ, ◌≡◌, refl, List, [], ◌∷◌, some, ok, err, parser_error, validation_error}
use fizzy.Common.{assertion_failed, stack_underflow}
use fizzy.Types.{ValType, FuncType, Locals, same_valtype}
use fizzy.Module.{Module, empty_module}
use fizzy.Common.{Result, ◌≢◌, arith, get_elem?}
use fizzy.Types.{Code}
use fizzy.Parser.Expr.{parse_expr, parse_instruction, start}
use fizzy.Parser.Expr.State.{ExprContext, find_local_type}
use fizzy.Common.{◌↔◌, ◌+◌, ◌≤◌, false}
use fizzy.Parser.Expr.Stacks.{
  ControlFrame, OperandStackType, from_valtype, unknown, push_outputs, update_operand_stack,
}
use fizzy.Parser.Expr.Typing.{Pops, update_operand_stack_iff}
use mathlib.Core.List.{reverse}
use fizzy.Parser.Expr.Gives.{Gives}
use fizzy.Parser.Expr.Invariant.{IsFramed}
use fizzy.Parser.Expr.Safe.{parse_instruction-Gives}
use fizzy.Parser.Expr.Ends.{parse_expr-total, start-Open}
use fizzy.Parser.Expr.LocalTypes.{expand, local_or_error, find_local_type-expand}
use fizzy.Parser.Code.{parse, parse_code}
use fizzy.Parser.Code.Total.{parse-total}
use fizzy.Common.{none}
use fizzy.Leb128.{leb128u_decode, leb128s_decode}

-- One function of one i32.
abbrev one_function : Module
one_function = record empty_module {
  typesec = record { inputs = ValType.i32 ∷ []; outputs = ValType.i32 ∷ [] } ∷ [];
  funcsec = 0 ∷ [];
}

-- if (local 0) { 7 } else { 8 }
abbrev branching : List ℕ
branching = 0x20 ∷ 0 ∷ 0x04 ∷ 0x7f ∷ 0x41 ∷ 7 ∷ 0x05 ∷ 0x41 ∷ 8 ∷ 0x0b ∷ 0x0b ∷ []

reads_branching :
    parse_expr 0 [] one_function branching
    ≡ some (
        ok (
          record {
            max_stack_height = 1;
            local_count = 0;
            instructions =
                0x20 ∷ 0 ∷ 0 ∷ 0 ∷ 0 ∷ 0x04 ∷ 20 ∷ 0 ∷ 0 ∷ 0 ∷ 0x41 ∷ 7 ∷ 0 ∷ 0 ∷ 0 ∷ 0x05 ∷ 26 ∷ 0
                ∷ 0 ∷ 0 ∷ 0x41 ∷ 8 ∷ 0 ∷ 0 ∷ 0 ∷ 0x0b ∷ 0x0b ∷ [];
          },
          [],
        ))
unfolding parse_expr leb128u_decode leb128s_decode same_valtype
reads_branching = refl

-- A value is dropped that is not there.
refuses_underflow :
    parse_expr 0 [] one_function (0x1a ∷ 0x0b ∷ []) ≡ some (err (validation_error stack_underflow))
unfolding parse_expr
refuses_underflow = refl

-- A function of one i32 that declares 2 ^ 32 - 1 locals: the `assert` of `parse_code` fails.
overflows_locals :
    parse_code (1 ∷ 0xff ∷ 0xff ∷ 0xff ∷ 0xff ∷ 0x0f ∷ 0x7f ∷ 0x0b ∷ []) 0 one_function
    ≡ some (err (parser_error assertion_failed))
unfolding parse_code leb128u_decode
overflows_locals = refl

parse_expr-total_example :
    (r : Result (Code × List ℕ)) × (parse_expr 0 [] one_function branching ≡ some r)
    × (r ≢ err (parser_error assertion_failed))
parse_expr-total_example =
    parse_expr-total 0 [] one_function branching (omega arith, tt) (omega arith)

abbrev body : ExprContext
body = record { parsed = one_function; func_inputs = ValType.i32 ∷ []; locals = [] }

abbrev type_of_body : FuncType
type_of_body = record { inputs = ValType.i32 ∷ []; outputs = ValType.i32 ∷ [] }

parse_instruction-Gives_example : Gives IsFramed (parse_instruction body 0x20 (start type_of_body))
parse_instruction-Gives_example =
    parse_instruction-Gives 0 body 0x20 (start type_of_body) (omega arith, tt)
      (start-Open type_of_body)

abbrev two_longs : List Locals
two_longs = record { count = 2; type = ValType.i64 } ∷ []

find_local_type-expand_example :
    find_local_type (ValType.i32 ∷ []) two_longs 2
    ≡ local_or_error (get_elem? (ValType.i32 ∷ expand two_longs) 2)
find_local_type-expand_example = find_local_type-expand (ValType.i32 ∷ []) two_longs 2

-- A module of one function that returns its argument.
abbrev identity_module : List ℕ
identity_module =
    0 ∷ 0x61 ∷ 0x73 ∷ 0x6d ∷ 1 ∷ 0 ∷ 0 ∷ 0 ∷ 1 ∷ 6 ∷ 1 ∷ 0x60 ∷ 1 ∷ 0x7f ∷ 1 ∷ 0x7f ∷ 3 ∷ 2 ∷ 1 ∷ 0
    ∷ 0x0a ∷ 6 ∷ 1 ∷ 4 ∷ 0 ∷ 0x20 ∷ 0 ∷ 0x0b ∷ []

parses_identity :
    parse identity_module
    ≡ some (
        ok (record empty_module {
          typesec = type_of_body ∷ [];
          funcsec = 0 ∷ [];
          codesec =
              record {
                max_stack_height = 1;
                local_count = 0;
                instructions = 0x20 ∷ 0 ∷ 0 ∷ 0 ∷ 0 ∷ 0x0b ∷ [];
              }
              ∷ [];
        }))
unfolding parse leb128u_decode same_valtype
parses_identity = refl

parse-total_example : parse identity_module ≢ none
parse-total_example = parse-total identity_module

-- A block that began above one operand.
abbrev reachable_block : ControlFrame
reachable_block = record {
  instruction = 0x02;
  type = none;
  code_offset = 0;
  parent_stack_height = 1;
  unreachable = false;
  br_immediate_offsets = [];
}

abbrev comparison_inputs : List ValType
comparison_inputs = ValType.i64 ∷ ValType.i64 ∷ []

abbrev comparison_operands : List OperandStackType
comparison_operands = from_valtype ValType.i64 ∷ unknown ∷ from_valtype ValType.f32 ∷ []

abbrev comparison_result : List OperandStackType
comparison_result = from_valtype ValType.i32 ∷ from_valtype ValType.f32 ∷ []

update_operand_stack_iff_example :
    (update_operand_stack reachable_block comparison_operands comparison_inputs (ValType.i32 ∷ [])
      ≡ ok comparison_result)
    ↔ ((1 + 2 ≤ 3)
        × (below : List OperandStackType) × Pops
            (reverse comparison_inputs)
            comparison_operands
            below
        × (push_outputs (ValType.i32 ∷ []) below ≡ comparison_result))
update_operand_stack_iff_example =
    update_operand_stack_iff reachable_block comparison_operands comparison_result comparison_inputs
      (ValType.i32 ∷ []) refl
