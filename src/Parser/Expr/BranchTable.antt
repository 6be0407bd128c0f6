-- ===== src/Parser/Expr/BranchTable.antt =====
-- `br_table` of lib/fizzy/parser_expr.cpp keeps the invariant of the loop.
use fizzy.Common.{
  ℕ, suc, ◌<◌, ◌≡◌, refl, subst, arith, List, [], ◌∷◌, All, length, get_elem?, get_elem?-lt, ltb,
  ltb→lt, Result, ◌>>◌, Bool-cases, inl, inr,
}
use fizzy.Instr
use fizzy.Parser.Expr.Stacks.{
  ControlFrame, OperandStackType, top, update_branch_stack, get_branch_arity, get_branch_frame_type,
}
use fizzy.Parser.Expr.State.{ExprState, push_branch}
use fizzy.Parser.Expr.Blocks.{check_label, check_labels, br_table}
use fizzy.Parser.Expr.Yields.{Yields, >>=-Yields, asserted-Yields}
use fizzy.Parser.Expr.Heights.{Above, update_branch_stack-Above}
use fizzy.Parser.Expr.Invariant.{IsFramed}
use fizzy.Parser.Expr.Keeps.{Open, push_opcode-Open, push_value-Open, mark_frame_unreachable-Open}
use fizzy.Parser.Expr.Branching.{and_also, push_branches-Open, push_branch-Open}

check_labels-Yields {ℓ} :
    {B : Type ℓ} (R : B → Type 0) (s : ExprState) (labels : List ℕ) (m : Result B)
    → (All (λ label. label < length s.control_stack) labels → Yields R m)
    → Yields R (check_labels s labels >> m)
unfolding check_labels check_label
check_labels-Yields R s [] m k = k tt
check_labels-Yields R s (label ∷ labels) m k =
    elim (Bool-cases (ltb label (length s.control_stack))) [
      | inl small ↦ rw small (
          check_labels-Yields R s labels m
            λ more. k (ltb→lt label (length s.control_stack) small, more))
      | inr large ↦ rw large refl
    ]

-- The top of a stack that is not empty, with what stands below it.
pub top-Yields :
    {A : Type 0} (xs : List A) {n : ℕ}
    → length xs ≡ suc n
    → Yields (λ x. (below : List A) × (xs ≡ x ∷ below)) (top xs)
top-Yields [] e = absurd (omega (arith, e))
top-Yields (x ∷ xs) e = (xs, refl)

-- The operands change, and stay above the begin of the top frame.
pub operands-IsFramed :
    (s : ExprState) (x : ControlFrame) (below : List ControlFrame) (stack : List OperandStackType)
    → IsFramed s
    → s.control_stack ≡ x ∷ below
    → Above x stack
    → IsFramed (record s { operand_stack = stack })
operands-IsFramed s x below stack f q a =
    let stand = rw q at f.nested in record { nested = rw q (a, stand.1); pending = f.pending }

pub Above-top :
    (s : ExprState) (x : ControlFrame) (below : List ControlFrame)
    → IsFramed s
    → s.control_stack ≡ x ∷ below
    → Above x s.operand_stack
Above-top s x below f q = (rw q at f.nested).0

label-Yields :
    (s : ExprState) (label : ℕ) → Yields (λ _. label < length s.control_stack) (check_label s label)
unfolding check_label
label-Yields s label = ground arith

-- The labels are checked before anything is written.
abbrev Checked : ExprState → ℕ → List ℕ → Type 0
Checked s default_label labels =
    All (λ label. label < length s.control_stack) labels × (default_label < length s.control_stack)

checked :
    (s : ExprState) (default_label : ℕ) (labels : List ℕ)
    → Yields
        (λ _. Checked s default_label labels)
        (check_labels s labels >> check_label s default_label)
checked s default_label labels =
    check_labels-Yields (λ _. Checked s default_label labels) s labels (check_label s default_label)
      λ all.
        and_also (All (λ label. label < length s.control_stack) labels)
          (λ _. default_label < length s.control_stack) (check_label s default_label) all
          (label-Yields s default_label)

abbrev Opened : ExprState → ControlFrame → Type 0
Opened s x = (below : List ControlFrame) × (s.control_stack ≡ x ∷ below)

pub br_table-Open :
    (n default_label : ℕ) (labels : List ℕ) (s : ExprState)
    → Open (suc n) s
    → Yields (Open (suc n)) (br_table labels default_label s)
unfolding br_table
br_table-Open n default_label labels s (f, e) =
    >>=-Yields (λ x. Checked s default_label labels × Opened s x) (Open (suc n))
      (check_labels s labels >> check_label s default_label >> top s.control_stack) _
      (>>=-Yields (λ _. Checked s default_label labels)
        (λ x. Checked s default_label labels × Opened s x)
        (check_labels s labels >> check_label s default_label) (λ _. top s.control_stack)
        (checked s default_label labels)
        (λ u c.
          and_also (Checked s default_label labels) (Opened s) (top s.control_stack) c
            (top-Yields s.control_stack e)))
      λ x (c, (below, q)).
        asserted-Yields (Open (suc n)) (get_elem? s.control_stack default_label) _
          (get_elem?-lt s.control_stack default_label c.1)
          λ branch b.
            >>=-Yields (Above x) (Open (suc n)) (update_branch_stack x branch s.operand_stack) _
              (update_branch_stack-Above x branch s.operand_stack (Above-top s x below f q))
              λ stack a.
                >>=-Yields (Open (suc n)) (Open (suc n)) _ _
                  (push_branches-Open (suc n) (get_branch_frame_type branch) labels _
                    (subst (λ m. All (λ label. label < m) labels) e c.0)
                    (push_value-Open (suc n) 4 (get_branch_arity branch) _ (
                      push_value-Open (suc n) 4 (length labels) _ (
                        push_opcode-Open (suc n) Instr.br_table (record s { operand_stack = stack })
                          (operands-IsFramed s x below stack f q a, e)))))
                  λ s' h'.
                    >>=-Yields (Open (suc n)) (Open (suc n)) (push_branch default_label s') _
                      (push_branch-Open (suc n) default_label s' (omega (arith, c.1, e)) h')
                      (mark_frame_unreachable-Open n)
