-- ===== src/Instantiate/Exports/Finds.antt =====
-- The exports of a module that `parse` has validated are found by `find_export` of
-- lib/fizzy/instantiate.cpp.
use fizzy.Common.{
  ℕ, zero, suc, ◌≡◌, ◌≢◌, refl, subst, List, [], ◌∷◌, All, get_elem?, Bool, Bool-cases, true, false,
  ◌&&◌, some, inl, inr, ok,
}
use fizzy.Types.{ExternalKind, function, table, memory, global, Export}
use fizzy.Module.{Module}
use fizzy.Parser.Sections.{same_bytes}
use fizzy.Parser.Validate.{validate}
use fizzy.Parser.Validate.Accepts.{validate_iff}
use fizzy.Parser.Validate.Exports.{same_bytes_iff}
use fizzy.Parser.Validate.Spec.{AreFresh, IsExportOf}
use fizzy.Instantiate.Exports.{find_if, same_kind, find_export}

same_kind_refl : (kind : ExternalKind) → same_kind kind kind ≡ true
unfolding same_kind
same_kind_refl function = refl
same_kind_refl table = refl
same_kind_refl memory = refl
same_kind_refl global = refl

-- The test of `find_export` for what `e` is.
abbrev is_like : Export → Export → Bool
is_like e x = same_kind x.kind e.kind && same_bytes x.name e.name

is_like_refl : (e : Export) → is_like e e ≡ true
is_like_refl e = rw (same_kind_refl e.kind, (same_bytes_iff e.name e.name).1 refl) refl

and_false : (b c : Bool) → c ≡ false → (b && c) ≡ false
and_false true c e = e
and_false false c e = refl

other_name-unlike : (e x : Export) → x.name ≢ e.name → is_like e x ≡ false
other_name-unlike e x n =
    and_false (same_kind x.kind e.kind) (same_bytes x.name e.name)
      (elim (Bool-cases (same_bytes x.name e.name)) [
        | inl same ↦ absurd (n ((same_bytes_iff x.name e.name).0 same))
        | inr other ↦ other
      ])

-- An export has none of the names before it.
AreFresh-apart :
    (names : List (List ℕ)) (es : List Export) (i : ℕ) (e : Export)
    → AreFresh names es
    → get_elem? es i ≡ some e
    → All (λ n. n ≢ e.name) names
AreFresh-apart names [] i e f q = cc (q)
AreFresh-apart names (x ∷ es) zero e f q =
    let p : x ≡ e = cc (q) in subst (λ (y : Export). All (λ n. n ≢ y.name) names) p f.0
AreFresh-apart names (x ∷ es) (suc i) e f q = (AreFresh-apart (x.name ∷ names) es i e f.1 q).1

find_if-fresh :
    (names : List (List ℕ)) (es : List Export) (i : ℕ) (e : Export)
    → AreFresh names es
    → get_elem? es i ≡ some e
    → find_if (is_like e) es ≡ some e
unfolding find_if
find_if-fresh names [] i e f q = cc (q)
find_if-fresh names (x ∷ es) zero e f q = let p : x ≡ e = cc (q) in rw (p, is_like_refl e) refl
find_if-fresh names (x ∷ es) (suc i) e f q =
    let apart = (AreFresh-apart (x.name ∷ names) es i e f.1 q).0 in
    rw (other_name-unlike e x apart) (find_if-fresh (x.name ∷ names) es i e f.1 q)

All-at {ℓ κ} :
    {A : Type ℓ} (P : A → Type κ) (xs : List A) (i : ℕ) (a : A)
    → All P xs
    → get_elem? xs i ≡ some a
    → P a
All-at P [] i a h q = cc (q)
All-at P (x ∷ xs) zero a h q = let p : x ≡ a = cc (q) in subst P p h.0
All-at P (x ∷ xs) (suc i) a h q = All-at P xs i a h.1 q

-- In a module that the validation has accepted, the search for an export by its kind and its name
-- finds, for each export of the module, the index of that export, and the index is one of an
-- entity of that kind.
pub find_export-validate :
    (parsed m : Module) (code_count i : ℕ) (e : Export)
    → validate parsed code_count ≡ ok m
    → get_elem? m.exportsec i ≡ some e
    → (find_export m e.kind e.name ≡ some e.index) × IsExportOf m e.kind e.index
unfolding find_export
find_export-validate parsed m code_count i e v q =
    let valid = ((validate_iff parsed m code_count).0 v).1 in
    (
      rw (find_if-fresh [] m.exportsec i e valid.names q, find_export) refl,
      All-at (λ x. IsExportOf m x.kind x.index) m.exportsec i e valid.exports q,
    )
