-- ===== src/Parser/Sections.antt =====
-- The loop of `parse` in lib/fizzy/parser.cpp over the sections of a binary.
pub mod Total
use fizzy.Common.{
  ℕ, zero, suc, ◌+◌, List, [], ◌∷◌, Option, none, some, Result, ok, err, parser_error,
}
use fizzy.Common.{unexpected_eof, invalid_module_prefix, out_of_order_section, unknown_section}
use fizzy.Common.{
  incorrect_section_size, minus, Bool, true, false, ltb, leb, ◌==◌, not, ◌||◌, ◌&&◌, if◌then◌else◌,
}
use fizzy.Common.{length, take, drop}
use fizzy.Module.{Module, empty_module}
use fizzy.Parser.Monad.{Parser, ◌>>=◌, ◌>>◌, return, throw, ensure}
use fizzy.Parser.Basic.{parse_u32, parse_vec, parse_string}
use fizzy.Parser.Entries.{parse_functype, parse_import, parse_table, parse_memory, parse_global}
use fizzy.Parser.Entries.{parse_export, parse_element, parse_code_view, parse_data}

-- What the loop changes beside the position: `module`, `code_binaries` and `last_id`.
pub record Sections : Type 0 where
  pub module_ : Module
  pub code_binaries : List (List ℕ)
  pub last_id : ℕ

-- `parse_string(it, expected_section_end); it += size;`: the string is read from the section alone.
unfoldable pub parse_custom : ℕ → Parser (Unit {0})
unfolding parse_string
parse_custom size bs = elim (parse_string (take size bs)) [
  | ok (name, rest) ↦ ok (tt, drop size bs)
  | err e ↦ err e
]

abbrev in_module : Sections → Module → Sections
in_module s m = record s { module_ = m }

-- The `switch` on the section's id. Every section but a custom one is read up to the end of the input.
unfoldable pub parse_section : ℕ → ℕ → Sections → Parser Sections
unfolding parse_vec parse_functype parse_import parse_table parse_memory parse_global parse_export
    parse_element parse_code_view parse_data parse_custom parse_u32
parse_section id size s =
    let m = s.module_ in
    if id == 1
    then (do v ← parse_vec parse_functype; return (in_module s (record m { typesec = v })))
    else (if id == 2
        then (do v ← parse_vec parse_import; return (in_module s (record m { importsec = v })))
        else (if id == 3
            then (do v ← parse_vec parse_u32; return (in_module s (record m { funcsec = v })))
            else (if id == 4
                then (do
                  v ← parse_vec parse_table
                  return (in_module s (record m { tablesec = v })))
                else (if id == 5
                    then (do
                      v ← parse_vec parse_memory
                      return (in_module s (record m { memorysec = v })))
                    else (if id == 6
                        then (do
                          v ← parse_vec parse_global
                          return (in_module s (record m { globalsec = v })))
                        else (if id == 7
                            then (do
                              v ← parse_vec parse_export
                              return (in_module s (record m { exportsec = v })))
                            else (if id == 8
                                then (do
                                  v ← parse_u32
                                  return (in_module s (record m { startfunc = some v })))
                                else (if id == 9
                                    then (do
                                      v ← parse_vec parse_element
                                      return (in_module s (record m { elementsec = v })))
                                    else (if id == 10
                                        then (do
                                          v ← parse_vec parse_code_view
                                          return (record s { code_binaries = v }))
                                        else (if id == 11
                                            then (do
                                              v ← parse_vec parse_data
                                              return (in_module s (record m { datasec = v })))
                                            else (if id == 0
                                                then (do parse_custom size; return s)
                                                else throw
                                                    (parser_error (unknown_section id)))))))))))))

-- `if (it != expected_section_end)`: both are positions in the input, so their distances to its end
-- are compared.
abbrev pub at_section_end : ℕ → ℕ → List ℕ → List ℕ → Sections → Result (Sections × List ℕ)
at_section_end id size begin after s =
    if length after + size == length begin
    then ok (s, after)
    else err (parser_error (incorrect_section_size id (minus (length begin) (length after + size))))

-- The content of a section of `size` bytes, which must end where the size says.
unfoldable pub sized_section : ℕ → Sections → ℕ → Parser Sections
unfolding parse_section
sized_section id s size begin =
    if ltb (length begin) size
    then err (parser_error unexpected_eof)
    else elim (parse_section id size s begin) [
      | err e ↦ err e
      | ok (s', after) ↦ at_section_end id size begin after s'
    ]

-- A section after its id: the order of the ids, the size, the content.
unfoldable pub section_body : ℕ → Sections → Parser Sections
unfolding parse_u32 sized_section
section_body id s = do
  ensure (id == 0 || not (leb id s.last_id)) (parser_error out_of_order_section)
  size ← parse_u32
  sized_section id (if id == 0 then s else record s { last_id = id }) size

-- Each round takes the byte of an id at least: the length of the input is fuel enough. Where the
-- fuel runs out the result is `none`, which `parse_sections` never gives.
unfoldable pub sections_loop : ℕ → Sections → List ℕ → Option (Result Sections)
unfolding section_body
sections_loop fuel s [] = some (ok s)
sections_loop zero s (id ∷ bs) = none
sections_loop (suc fuel) s (id ∷ bs) = elim (section_body id s bs) [
  | err e ↦ some (err e)
  | ok (s', rest) ↦ sections_loop fuel s' rest
]

abbrev pub wasm_prefix : List ℕ
wasm_prefix = 0x00 ∷ 0x61 ∷ 0x73 ∷ 0x6d ∷ 0x01 ∷ 0x00 ∷ 0x00 ∷ 0x00 ∷ []

abbrev pub same_bytes : List ℕ → List ℕ → Bool
same_bytes [] [] = true
same_bytes [] (y ∷ ys) = false
same_bytes (x ∷ xs) [] = false
same_bytes (x ∷ xs) (y ∷ ys) = x == y && same_bytes xs ys

abbrev pub start : Sections
start = record { module_ = empty_module; code_binaries = []; last_id = 0 }

-- The part of `parse` before the validation.
unfoldable pub parse_sections : List ℕ → Option (Result Sections)
unfolding sections_loop
parse_sections input =
    if same_bytes (take 8 input) wasm_prefix
    then sections_loop (length (drop 8 input)) start (drop 8 input)
    else some (err (parser_error invalid_module_prefix))
