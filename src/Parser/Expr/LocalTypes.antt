-- ===== src/Parser/Expr/LocalTypes.antt =====
-- `find_local_type` of lib/fizzy/parser_expr.cpp against the list of all locals of a function, with
-- every declaration written out.
use fizzy.Common.{
  ℕ, zero, suc, ◌+◌, ◌-◌, ◌≤◌, ◌<◌, ◌≡◌, refl, sym, ap, subst, ◌∙◌, arith, List, [], ◌∷◌, ◌++◌,
  Option, none, some, length, length-replicate, get_elem?-lt, replicate, get_elem?, ltb, leb,
  ltb→lt, ltb→le, true, Bool-cases, inl, inr,
}
use fizzy.Common.{Result, ok, err, validation_error, invalid_local_index}
use fizzy.Types.{ValType, Locals}
use fizzy.Parser.Expr.State.{find_in_locals, find_local_type}

-- The types of the local variables, one after another.
abbrev pub expand : List Locals → List ValType
expand [] = []
expand (l ∷ ls) = replicate l.count l.type ++ expand ls

abbrev pub local_or_error : Option ValType → Result ValType
local_or_error none = err (validation_error invalid_local_index)
local_or_error (some t) = ok t

le→leb : (a b : ℕ) → a ≤ b → leb a b ≡ true
le→leb a b h = ground arith

get_elem?-append_left :
    (xs ys : List ValType) (i : ℕ) → i < length xs → get_elem? (xs ++ ys) i ≡ get_elem? xs i
get_elem?-append_left [] ys i h = absurd (omega arith)
get_elem?-append_left (x ∷ xs) ys zero h = refl
get_elem?-append_left (x ∷ xs) ys (suc i) h = get_elem?-append_left xs ys i (omega arith)

get_elem?-append_right :
    (xs ys : List ValType) (i : ℕ) → get_elem? (xs ++ ys) (length xs + i) ≡ get_elem? ys i
get_elem?-append_right [] ys i = rw (plus_zero i) refl
  where
    plus_zero : (i : ℕ) → 0 + i ≡ i
    plus_zero i = omega arith
get_elem?-append_right (x ∷ xs) ys i = rw (plus_suc (length xs) i) (get_elem?-append_right xs ys i)
  where
    plus_suc : (n i : ℕ) → suc n + i ≡ suc (n + i)
    plus_suc n i = omega arith

get_elem?-replicate : (n i : ℕ) (t : ValType) → i < n → get_elem? (replicate n t) i ≡ some t
get_elem?-replicate zero i t h = absurd (omega arith)
get_elem?-replicate (suc n) zero t h = refl
get_elem?-replicate (suc n) (suc i) t h = get_elem?-replicate n i t (omega arith)

in_declaration :
    (n i : ℕ) (t : ValType) (ys : List ValType) → i < n → get_elem? (replicate n t ++ ys) i ≡ some t
in_declaration n i t ys h =
    get_elem?-append_left (replicate n t) ys i (omega (arith, length-replicate n t, h))
    ∙ get_elem?-replicate n i t h

after_declaration :
    (n i j : ℕ) (t : ValType) (ys : List ValType)
    → n + j ≡ i
    → get_elem? (replicate n t ++ ys) i ≡ get_elem? ys j
after_declaration n i j t ys e =
    let place : length (replicate n t) + j ≡ i = omega (arith, length-replicate n t, e) in
    subst (λ k. get_elem? (replicate n t ++ ys) k ≡ get_elem? ys j) place
      (get_elem?-append_right (replicate n t) ys j)

find_in_locals-expand :
    (idx count : ℕ) (locals : List Locals)
    → count ≤ idx
    → find_in_locals idx count locals ≡ local_or_error (get_elem? (expand locals) (idx - count))
unfolding find_in_locals
find_in_locals-expand idx count [] h = refl
find_in_locals-expand idx count (l ∷ ls) h = elim (Bool-cases (ltb idx (count + l.count))) [
  | inl here ↦
      let small : idx - count < l.count = omega (arith, ltb→lt idx (count + l.count) here) in
      rw (le→leb count idx h, here, in_declaration l.count (idx - count) l.type (expand ls) small)
        refl
  | inr later ↦
      let beyond : count + l.count ≤ idx = ltb→le idx (count + l.count) later in
      let place : l.count + (idx - (count + l.count)) ≡ idx - count = omega arith in
      rw
        (
          le→leb count idx h,
          later,
          after_declaration l.count (idx - count) (idx - (count + l.count)) l.type (expand ls)
              place,
        )
        (find_in_locals-expand idx (count + l.count) ls beyond)
]

-- The type that is found for a local index is the item at the index in the list of the parameters
-- followed by every declared local variable, one by one; where the list has no such item the
-- error is that of an invalid local index.
pub find_local_type-expand :
    (params : List ValType) (locals : List Locals) (idx : ℕ)
    → find_local_type params locals idx ≡ local_or_error (get_elem? (params ++ expand locals) idx)
unfolding find_local_type
find_local_type-expand params locals idx = elim (Bool-cases (ltb idx (length params))) [
  | inl small ↦
      let (t, q) = get_elem?-lt params idx (ltb→lt idx (length params) small) in
      rw (small, get_elem?-append_left params (expand locals) idx (ltb→lt idx _ small), q) refl
  | inr large ↦
      let place : length params + (idx - length params) ≡ idx = omega (arith, ltb→le idx _ large) in
      rw (large, find_in_locals-expand (idx - length params) 0 locals (omega arith))
        (subst
          (λ k.
            local_or_error (get_elem? (expand locals) (idx - length params - 0))
            ≡ local_or_error (get_elem? (params ++ expand locals) k))
          place
          (ap local_or_error (
            ap (λ k. get_elem? (expand locals) k) (minus_zero (idx - length params))
            ∙ sym (get_elem?-append_right params (expand locals) (idx - length params)))))
]
  where
    minus_zero : (n : ℕ) → n - 0 ≡ n
    minus_zero n = omega arith
