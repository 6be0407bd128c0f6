-- ===== src/Parser/Tests.antt =====
-- Runs of the parsers and checks of lib/fizzy/parser.cpp, and the theorems at concrete inputs.
use fizzy.Common.{ℕ, ◌≡◌, refl, ◌↔◌, List, [], ◌∷◌, some, ok, err, validation_error}
use fizzy.Common.{malformed_limits}
use fizzy.Types.{ValType, FuncType, ExternalKind}
use fizzy.Module.{Module, empty_module}
use fizzy.Parser.Entries.{parse_limits}
use fizzy.Parser.Sections.{parse_sections}
use fizzy.Parser.Validate.{split_imports, validate}
use fizzy.Parser.Validate.Spec.{IsValid}
use fizzy.Parser.Validate.Accepts.{validate_iff}
use fizzy.Leb128.{leb128u_decode}

reads_limits : parse_limits (1 ∷ 2 ∷ 3 ∷ 9 ∷ []) ≡ ok (record { min = 2; max = some 3 }, 9 ∷ [])
unfolding parse_limits leb128u_decode
reads_limits = refl

refuses_limits : parse_limits (1 ∷ 4 ∷ 3 ∷ []) ≡ err (validation_error malformed_limits)
unfolding parse_limits leb128u_decode
refuses_limits = refl

-- The prefix, a type section of one function type () → i32, and the same section again.
abbrev one_type : List ℕ
one_type = 0 ∷ 0x61 ∷ 0x73 ∷ 0x6d ∷ 1 ∷ 0 ∷ 0 ∷ 0 ∷ 1 ∷ 5 ∷ 1 ∷ 0x60 ∷ 0 ∷ 1 ∷ 0x7f ∷ []

abbrev constant_type : FuncType
constant_type = record { inputs = []; outputs = ValType.i32 ∷ [] }

reads_section :
    parse_sections one_type
    ≡ some (
        ok (record {
          module_ = record empty_module { typesec = constant_type ∷ [] };
          code_binaries = [];
          last_id = 1;
        }))
unfolding parse_sections leb128u_decode
reads_section = refl

-- A module that exports its one function.
abbrev exporting : Module
exporting = record empty_module {
  typesec = constant_type ∷ [];
  funcsec = 0 ∷ [];
  exportsec = record { name = 0x66 ∷ []; kind = ExternalKind.function; index = 0 } ∷ [];
}

accepts_exporting : validate exporting 1 ≡ ok exporting
unfolding validate
accepts_exporting = refl

validate_iff_example :
    (validate exporting 1 ≡ ok exporting)
    ↔ ((split_imports [] exporting ≡ ok exporting) × IsValid exporting 1)
validate_iff_example = validate_iff exporting exporting 1
