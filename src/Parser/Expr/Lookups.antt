-- ===== src/Parser/Expr/Lookups.antt =====
-- The functions, globals, locals and types that the handlers of lib/fizzy/parser_expr.cpp look up are
-- there, behind the tests that the handlers make.
use fizzy.Common.{
  ℕ, zero, suc, ◌+◌, ◌-◌, ◌<◌, ◌≡◌, refl, subst, arith, List, [], ◌∷◌, Option, none, some, All,
  length, get_elem?, get_elem?-lt, ltb, ltb→lt, ltb→le, Bool-cases, inl, inr,
}
use fizzy.Common.{asserted}
use fizzy.Types.{ValType, FuncType, GlobalType, Locals}
use fizzy.Module.{Module, get_function_count, get_function_type, get_global_count, get_global_type}
use fizzy.Parser.Basic.{parse_byte}
use fizzy.Parser.Expr.State.{find_in_locals, find_local_type}
use fizzy.Parser.Expr.Blocks.{blocktype_of}
use fizzy.Parser.Expr.Handlers.{parse_blocktype}
use fizzy.Parser.Expr.Yields.{Yields}
use fizzy.Parser.Expr.Keeps.{}
use fizzy.Parser.Expr.Gives.{Plain, >>=-Gives, lift-Gives, parse_byte-Plain}

-- Every function of the module has its type in the type section.
abbrev pub IsTyped : Module → Type 0
IsTyped m = All (λ type_idx. type_idx < length m.typesec) m.funcsec

blocktype_of-Yields : (type : ℕ) → Yields (λ _. Unit {0}) (blocktype_of type)
unfolding blocktype_of
blocktype_of-Yields type = ground arith

pub parse_blocktype-Plain : Plain parse_blocktype
unfolding parse_blocktype
parse_blocktype-Plain =
    >>=-Gives (λ _. Unit {0}) (λ _. Unit {0}) parse_byte _ parse_byte-Plain
      λ type u. lift-Gives (λ _. Unit {0}) (blocktype_of type) (blocktype_of-Yields type)

pub asserted-some :
    {A : Type 0} (o : Option A) → ((a : A) × (o ≡ some a)) → Yields (λ _. Unit {0}) (asserted o)
asserted-some (some a) h = tt
asserted-some none h = cc (h.1)

find_in_locals-Yields :
    (idx count : ℕ) (locals : List Locals)
    → Yields (λ _. Unit {0}) (find_in_locals idx count locals)
unfolding find_in_locals
find_in_locals-Yields idx count [] = refl
find_in_locals-Yields idx count (l ∷ ls) =
    ground (arith, find_in_locals-Yields idx (count + l.count) ls)

pub find_local_type-Yields :
    (params : List ValType) (locals : List Locals) (idx : ℕ)
    → Yields (λ _. Unit {0}) (find_local_type params locals idx)
unfolding find_local_type
find_local_type-Yields params locals idx = elim (Bool-cases (ltb idx (length params))) [
  | inl small ↦ rw small (
      asserted-some (get_elem? params idx)
        (get_elem?-lt params idx (ltb→lt idx (length params) small)))
  | inr large ↦ rw large (find_in_locals-Yields (idx - length params) 0 locals)
]

pub All-get {κ} :
    (P : ℕ → Type κ) (xs : List ℕ) (i : ℕ) {x : ℕ} → All P xs → get_elem? xs i ≡ some x → P x
All-get P [] i a q = cc
All-get P (x ∷ xs) zero a q = subst P (cc (q)) a.0
All-get P (x ∷ xs) (suc i) a q = All-get P xs i a.1 q

pub get_function_type-some :
    (m : Module) (idx : ℕ)
    → IsTyped m
    → idx < get_function_count m
    → (type : FuncType) × (get_function_type m idx ≡ some type)
unfolding get_function_type
get_function_type-some m idx typed h =
    elim (Bool-cases (ltb idx (length m.imported_function_types))) [
      | inl small ↦ rw small (get_elem?-lt m.imported_function_types idx (ltb→lt idx _ small))
      | inr large ↦ rw large (
          let i = idx - length m.imported_function_types in
          let (type_idx, q) = get_elem?-lt m.funcsec i (omega (arith, h, ltb→le idx _ large)) in
          rw q (get_elem?-lt m.typesec type_idx (All-get _ m.funcsec i typed q)))
    ]

pub get_global_type-some :
    (m : Module) (idx : ℕ)
    → idx < get_global_count m
    → (type : GlobalType) × (get_global_type m idx ≡ some type)
unfolding get_global_type
get_global_type-some m idx h = elim (Bool-cases (ltb idx (length m.imported_global_types))) [
  | inl small ↦ rw small (get_elem?-lt m.imported_global_types idx (ltb→lt idx _ small))
  | inr large ↦ rw large (
      let i = idx - length m.imported_global_types in
      let (g, q) = get_elem?-lt m.globalsec i (omega (arith, h, ltb→le idx _ large)) in
      rw q (g.type, refl))
]
