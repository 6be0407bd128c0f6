-- ===== src/Parser/Code.antt =====
-- lib/fizzy/parser.cpp: `parse_code`, and `parse` from the bytes of a binary to the module.
pub mod Total
use fizzy.Common.{ℕ, suc, ◌+◌, ◌^◌, List, [], ◌∷◌, Option, none, some, length, ltb, if◌then◌else◌}
use fizzy.Common.{
  Result, ok, err, parser_error, assertion_failed, too_many_locals, malformed_function_size,
}
use fizzy.Types.{Locals, Code}
use fizzy.Module.{Module}
use fizzy.Parser.Basic.{parse_vec}
use fizzy.Parser.Entries.{parse_locals}
use fizzy.Parser.Expr.{parse_expr, type_of_function}
use fizzy.Parser.Sections.{parse_sections}
use fizzy.Parser.Validate.{validate}

-- The loop that counts the local variables, on 64 bits.
unfoldable pub count_locals : ℕ → List Locals → Result ℕ
count_locals count [] = ok count
count_locals count (l ∷ ls) =
    let more = count_locals (count + l.count) ls in
    if ltb (count + l.count) (2 ^ 32) then more else err (parser_error too_many_locals)

-- `code.local_count = ...`, when the body ends where the size says.
abbrev pub finish_code : ℕ → Code × List ℕ → Result Code
finish_code local_count (code, []) = ok (record code { local_count = local_count })
finish_code local_count (code, b ∷ bs) = err (parser_error malformed_function_size)

-- The body after its declarations of local variables.
unfoldable pub parse_body : ℕ → Module → List Locals → ℕ → List ℕ → Option (Result Code)
unfolding parse_expr
parse_body func_idx m locals local_count bs = elim (type_of_function m func_idx) [
  | none ↦ some (err (parser_error assertion_failed))
  | some func_type ↦
      if ltb (local_count + length func_type.inputs) (2 ^ 32)
      then (elim (parse_expr func_idx locals m bs) [
        | none ↦ none
        | some (err e) ↦ some (err e)
        | some (ok parsed) ↦ some (finish_code local_count parsed)
      ])
      else some (err (parser_error assertion_failed))
]

unfoldable pub parse_code : List ℕ → ℕ → Module → Option (Result Code)
unfolding parse_vec parse_locals count_locals parse_body
parse_code code_binary func_idx m = elim (parse_vec parse_locals code_binary) [
  | err e ↦ some (err e)
  | ok (locals, bs) ↦ elim (count_locals 0 locals) [
    | err e ↦ some (err e)
    | ok local_count ↦ parse_body func_idx m locals local_count bs
  ]
]

abbrev pub add_code : Code → Result (List Code) → Result (List Code)
add_code code (ok codes) = ok (code ∷ codes)
add_code code (err e) = err e

-- The loop over the bodies, from the function with index `func_idx`.
unfoldable pub parse_codes : List (List ℕ) → ℕ → Module → Option (Result (List Code))
unfolding parse_code
parse_codes [] func_idx m = some (ok [])
parse_codes (body ∷ bodies) func_idx m = elim (parse_code body func_idx m) [
  | none ↦ none
  | some (err e) ↦ some (err e)
  | some (ok code) ↦ elim (parse_codes bodies (suc func_idx) m) [
    | none ↦ none
    | some codes ↦ some (add_code code codes)
  ]
]

abbrev pub with_codes : Module → Result (List Code) → Result Module
with_codes m (ok codes) = ok (record m { codesec = codes })
with_codes m (err e) = err e

abbrev pub parse_bodies : List (List ℕ) → Result Module → Option (Result Module)
parse_bodies bodies (err e) = some (err e)
parse_bodies bodies (ok m) = elim (parse_codes bodies 0 m) [
  | none ↦ none
  | some codes ↦ some (with_codes m codes)
]

unfoldable pub parse : List ℕ → Option (Result Module)
unfolding parse_sections validate parse_codes
parse input = elim (parse_sections input) [
  | none ↦ none
  | some (err e) ↦ some (err e)
  | some (ok s) ↦ parse_bodies s.code_binaries (validate s.module_ (length s.code_binaries))
]
