-- ===== src/Parser/Code/Total.antt =====
-- `parse` of lib/fizzy/parser.cpp ends on every input.
use fizzy.Common.{
  ℕ, suc, ◌+◌, ◌^◌, ◌≤◌, ◌<◌, ◌≡◌, ◌≢◌, refl, arith, List, [], ◌∷◌, Option, none, some, length, ltb,
  if◌then◌else◌, Bool-cases, inl, inr,
}
use fizzy.Common.{Result, ok, err, parser_error, assertion_failed}
use fizzy.Types.{Locals, Code, FuncType}
use fizzy.Module.{Module}
use fizzy.Parser.Basic.{parse_vec}
use fizzy.Parser.Entries.{parse_locals}
use fizzy.Parser.Code.{
  count_locals, finish_code, parse_body, parse_code, add_code, parse_codes, with_codes,
  parse_bodies, parse,
}
use fizzy.Parser.Expr.{parse_expr, type_of_function}
use fizzy.Parser.Expr.Lookups.{IsTyped}
use fizzy.Parser.Expr.Ends.{parse_expr-total}
use fizzy.Parser.Sections.{Sections, parse_sections}
use fizzy.Parser.Sections.Total.{parse_sections-total}
use fizzy.Parser.Validate.{validate}
use fizzy.Parser.Validate.Accepts.{validate_iff}

abbrev Ended : {A : Type 0} → Option A → Type 0
Ended o = o ≢ none

parse_body-Ended :
    (func_idx : ℕ) (m : Module) (locals : List Locals) (count : ℕ) (bs : List ℕ)
    → IsTyped m
    → func_idx < length m.funcsec
    → Ended (parse_body func_idx m locals count bs)
unfolding parse_body
parse_body-Ended func_idx m locals count bs typed h = opened (type_of_function m func_idx)
  where
    ended : Ended (parse_expr func_idx locals m bs)
    ended = let (r, q, safe) = parse_expr-total func_idx locals m bs typed h in λ e. cc (e, q)

    finished :
        (o : Option (Result (Code × List ℕ)))
        → Ended o
        → Ended {A = Result Code} (elim o [
          | none ↦ none
          | some (err e) ↦ some (err e)
          | some (ok parsed) ↦ some (finish_code count parsed)
        ])
    finished none n = absurd (n refl)
    finished (some (err e)) n = λ q. cc
    finished (some (ok parsed)) n = λ q. cc

    opened :
        (o : Option FuncType)
        → Ended {A = Result Code} (elim o [
          | none ↦ some (err (parser_error assertion_failed))
          | some func_type ↦
              if ltb (count + length func_type.inputs) (2 ^ 32)
              then (elim (parse_expr func_idx locals m bs) [
                | none ↦ none
                | some (err e) ↦ some (err e)
                | some (ok parsed) ↦ some (finish_code count parsed)
              ])
              else some (err (parser_error assertion_failed))
        ])
    opened none = λ q. cc
    opened (some type) = elim (Bool-cases (ltb (count + length type.inputs) (2 ^ 32))) [
      | inl small ↦ rw small (finished (parse_expr func_idx locals m bs) ended)
      | inr large ↦ rw large (λ q. cc)
    ]

parse_code-Ended :
    (body : List ℕ) (func_idx : ℕ) (m : Module)
    → IsTyped m
    → func_idx < length m.funcsec
    → Ended (parse_code body func_idx m)
unfolding parse_code
parse_code-Ended body func_idx m typed h = opened (parse_vec parse_locals body)
  where
    counted :
        (locals : List Locals) (bs : List ℕ) (r : Result ℕ)
        → Ended {A = Result Code} (elim r [
          | err e ↦ some (err e)
          | ok local_count ↦ parse_body func_idx m locals local_count bs
        ])
    counted locals bs (err e) = λ q. cc
    counted locals bs (ok count) = parse_body-Ended func_idx m locals count bs typed h

    opened :
        (r : Result (List Locals × List ℕ))
        → Ended {A = Result Code} (elim r [
          | err e ↦ some (err e)
          | ok (locals, bs) ↦ elim (count_locals 0 locals) [
            | err e ↦ some (err e)
            | ok local_count ↦ parse_body func_idx m locals local_count bs
          ]
        ])
    opened (err e) = λ q. cc
    opened (ok (locals, bs)) = counted locals bs (count_locals 0 locals)

-- There are no more bodies than functions.
parse_codes-Ended :
    (bodies : List (List ℕ)) (func_idx : ℕ) (m : Module)
    → IsTyped m
    → func_idx + length bodies ≤ length m.funcsec
    → Ended (parse_codes bodies func_idx m)
unfolding parse_codes
parse_codes-Ended [] func_idx m typed h = λ q. cc
parse_codes-Ended (body ∷ bodies) func_idx m typed h =
    joined (parse_code body func_idx m) (parse_codes bodies (suc func_idx) m)
      (parse_code-Ended body func_idx m typed (omega arith))
      (parse_codes-Ended bodies (suc func_idx) m typed (omega arith))
  where
    joined :
        (o : Option (Result Code)) (more : Option (Result (List Code)))
        → Ended o
        → Ended more
        → Ended {A = Result (List Code)} (elim o [
          | none ↦ none
          | some (err e) ↦ some (err e)
          | some (ok code) ↦ elim more [ none ↦ none | some codes ↦ some (add_code code codes) ]
        ])
    joined none more n k = absurd (n refl)
    joined (some (err e)) more n k = λ q. cc
    joined (some (ok code)) none n k = absurd (k refl)
    joined (some (ok code)) (some codes) n k = λ q. cc

parse_bodies-Ended :
    (bodies : List (List ℕ)) (parsed : Module)
    → Ended (parse_bodies bodies (validate parsed (length bodies)))
parse_bodies-Ended bodies parsed = opened (validate parsed (length bodies)) refl
  where
    coded :
        (m : Module) (o : Option (Result (List Code)))
        → Ended o
        → Ended {A = Result Module}
            (elim o [ none ↦ none | some codes ↦ some (with_codes m codes) ])
    coded m none n = absurd (n refl)
    coded m (some codes) n = λ q. cc

    opened :
        (r : Result Module) → validate parsed (length bodies) ≡ r → Ended (parse_bodies bodies r)
    opened (err e) q = λ q. cc
    opened (ok m) q =
        let valid = ((validate_iff parsed m (length bodies)).0 q).1 in
        coded m (parse_codes bodies 0 m)
          (parse_codes-Ended bodies 0 m valid.function_types (omega (arith, valid.codes)))

-- Parsing a binary, with its sections, its validation and all its function bodies, ends on every
-- input: no loop is stopped by the fuel of its model.
pub parse-total : (input : List ℕ) → parse input ≢ none
unfolding parse
parse-total input = opened (parse_sections input) (parse_sections-total input)
  where
    opened :
        (o : Option (Result Sections))
        → Ended o
        → Ended {A = Result Module} (elim o [
          | none ↦ none
          | some (err e) ↦ some (err e)
          | some (ok s) ↦ parse_bodies s.code_binaries (validate s.module_ (length s.code_binaries))
        ])
    opened none n = absurd (n refl)
    opened (some (err e)) n = λ q. cc
    opened (some (ok s)) n = parse_bodies-Ended s.code_binaries s.module_
