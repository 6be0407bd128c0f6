-- ===== src/Parser/Expr/Branching.antt =====
-- The branches of `parse_expr` in lib/fizzy/parser_expr.cpp keep its invariant, when their labels are
-- checked.
use fizzy.Common.{
  ℕ, suc, ◌+◌, ◌-◌, ◌≤◌, ◌<◌, ◌≡◌, refl, ap, ◌∙◌, arith, not, List, [], ◌∷◌, ◌++◌, Option, none,
  some, All, All-append, length, get_elem?, get_elem?-lt, length-append, ltb, ltb→lt, ◌==◌,
}
use fizzy.Common.{
  Result, ok, err, ◌>>=◌, ◌>>◌, assert, asserted, check, validation_error, inconsistent_labels,
  invalid_label_index,
}
use fizzy.Types.{ValType}
use fizzy.Instr
use fizzy.Parser.Expr.Stacks.{
  ControlFrame, from_valtype, top, update_branch_stack, get_branch_arity, get_branch_frame_type,
}
use fizzy.Parser.Expr.State.{
  ExprState, push_value, push_instruction, push_operand, push_branch, branch_to, stored_bytes,
}
use fizzy.Parser.Expr.Blocks.{
  check_label, br, br_if, handle_return, push_branches, push_branch_result, same_result,
}
use fizzy.Parser.Expr.Yields.{Yields, >>=-Yields, check-Yields, assert-Yields, asserted-Yields}
use fizzy.Parser.Expr.Heights.{Above, update_branch_stack-Above}
use fizzy.Parser.Expr.Invariant.{
  Fits, Fits-grow, IsPending, IsPending-grow, All-IsPending-grow, length-stored_bytes, Nested-set,
}
use fizzy.Parser.Expr.Keeps.{
  Open, push_opcode-Open, push_value-Open, push_operand-Open, mark_frame_unreachable-Open, All-at,
  All-set, length-set,
}

-- With its new branch, the frame of the label awaits one immediate more, inside of the code.
noted-IsPending :
    {m : ℕ} (k : ℕ) (f : ControlFrame)
    → m + 4 ≤ k
    → IsPending m f
    → IsPending k (record f { br_immediate_offsets = f.br_immediate_offsets ++ m ∷ [] })
noted-IsPending {m} k f h p = record {
  branches =
      All-append (Fits k) f.br_immediate_offsets (m ∷ [])
        (Fits-grow f.br_immediate_offsets (omega arith) p.branches) (h, tt);
  own = (IsPending-grow {frame = f} (omega arith) p).own;
}

pub push_branch-Open :
    (n label : ℕ) (s : ExprState) → label < n → Open n s → Yields (Open n) (push_branch label s)
unfolding push_branch push_value
push_branch-Open n label s h (f, e) =
    asserted-Yields (Open n) (get_elem? s.control_stack label) _
      (get_elem?-lt s.control_stack label (omega (arith, e, h)))
      λ branch q. (
        record {
          nested =
              Nested-set s.control_stack label (length s.operand_stack) branch _ q refl f.nested;
          pending =
              All-set s.control_stack label _
                (All-IsPending-grow s.control_stack
                  (omega (arith, size branch.code_offset (dropped branch))) f.pending)
                (noted-IsPending _ branch (omega (arith, size branch.code_offset (dropped branch)))
                  (All-at s.control_stack label f.pending q));
        },
        length-set s.control_stack label _ ∙ e,
      )
  where
    dropped : ControlFrame → ℕ
    dropped branch = length s.operand_stack - branch.parent_stack_height

    size :
        (offset drop : ℕ)
        → length ((s.instructions ++ stored_bytes 4 offset) ++ stored_bytes 4 drop)
          ≡ length s.instructions + 8
    size offset drop = omega (
      arith,
      length-append (s.instructions ++ stored_bytes 4 offset) (stored_bytes 4 drop),
      length-append s.instructions (stored_bytes 4 offset),
      length-stored_bytes 4 offset,
      length-stored_bytes 4 drop,
    )

pub branch_to-Open :
    (n opcode label : ℕ) (s : ExprState)
    → label < suc n
    → Open (suc n) s
    → Yields (Open (suc n)) (branch_to opcode label s)
unfolding branch_to
branch_to-Open n opcode label s h (f, e) = opened s.control_stack refl
  where
    opened :
        (frames : List ControlFrame)
        → s.control_stack ≡ frames
        → Yields (Open (suc n)) (
            top frames >>= λ frame. asserted (get_elem? s.control_stack label) >>= λ branch.
            update_branch_stack frame branch s.operand_stack >>= λ stack. push_branch label (
              push_instruction opcode 4
                (get_branch_arity branch)
                (record s { operand_stack = stack })))
    opened [] q = absurd (omega (arith, e, ap length q))
    opened (x ∷ xs) q =
        let stand = rw q at f.nested in
        asserted-Yields (Open (suc n)) (get_elem? s.control_stack label) _
          (get_elem?-lt s.control_stack label (omega (arith, e, h)))
          λ branch b.
            >>=-Yields (Above x) (Open (suc n)) (update_branch_stack x branch s.operand_stack) _
              (update_branch_stack-Above x branch s.operand_stack stand.0)
              λ stack a. push_branch-Open (suc n) label _ h (
                push_value-Open (suc n) 4 (get_branch_arity branch) _ (
                  push_opcode-Open (suc n) opcode (record s { operand_stack = stack })
                    (record { nested = rw q (a, stand.1); pending = f.pending }, e)))

check_label-Yields {ℓ} :
    {B : Type ℓ} (R : B → Type 0) (s : ExprState) (label : ℕ) (m : Result B)
    → (label < length s.control_stack → Yields R m)
    → Yields R (check_label s label >> m)
unfolding check_label
check_label-Yields R s label m k =
    check-Yields R (ltb label (length s.control_stack)) (validation_error invalid_label_index) m
      refl λ small. k (ltb→lt label (length s.control_stack) small)

pub br-Open : (n label : ℕ) (s : ExprState) → Open (suc n) s → Yields (Open (suc n)) (br label s)
unfolding br
br-Open n label s h =
    >>=-Yields (Open (suc n)) (Open (suc n)) (check_label s label >> branch_to Instr.br label s) _
      (check_label-Yields (Open (suc n)) s label (branch_to Instr.br label s)
        λ small. branch_to-Open n Instr.br label s (omega (arith, small, h.1)) h)
      (mark_frame_unreachable-Open n)

push_branch_result-Open :
    (n : ℕ) (branch : ControlFrame) (s : ExprState)
    → Open n s
    → Open n (push_branch_result branch s)
push_branch_result-Open n branch s h = opened (get_branch_frame_type branch)
  where
    opened :
        (type : Option ValType)
        → Open n (elim type [ none ↦ s | some t ↦ push_operand (from_valtype t) s ])
    opened none = h
    opened (some t) = push_operand-Open n (from_valtype t) s h

-- A step that was reached with `P`.
pub and_also {ℓ} :
    {B : Type ℓ} (P : Type 0) (R : B → Type 0) (m : Result B)
    → P
    → Yields R m
    → Yields (λ s. P × R s) m
and_also P R (ok b) p y = (p, y)
and_also P R (err e) p y = y

pub br_if-Open :
    (n label : ℕ) (s : ExprState) → Open (suc n) s → Yields (Open (suc n)) (br_if label s)
unfolding br_if
br_if-Open n label s h =
    >>=-Yields (λ s'. (label < suc n) × Open (suc n) s') (Open (suc n))
      (check_label s label >> branch_to Instr.br_if label s) _
      (check_label-Yields (λ s'. (label < suc n) × Open (suc n) s') s label
        (branch_to Instr.br_if label s)
        λ small.
          let below : label < suc n = omega (arith, small, h.1) in
          and_also (label < suc n) (Open (suc n)) (branch_to Instr.br_if label s) below
            (branch_to-Open n Instr.br_if label s below h))
      λ s' h'.
        asserted-Yields (Open (suc n)) (get_elem? s'.control_stack label) _
          (get_elem?-lt s'.control_stack label (omega (arith, h'.0, h'.1.1)))
          λ branch q. push_branch_result-Open (suc n) branch s' h'.1

pub handle_return-Open :
    (n : ℕ) (s : ExprState) → Open (suc n) s → Yields (Open (suc n)) (handle_return s)
unfolding handle_return
handle_return-Open n s h =
    >>=-Yields (Open (suc n)) (Open (suc n))
      (assert (not (length s.control_stack == 0))
        >> branch_to Instr.return_ (length s.control_stack - 1) s)
      _
      (assert-Yields (Open (suc n)) (not (length s.control_stack == 0))
        (branch_to Instr.return_ (length s.control_stack - 1) s) (ground (arith, h.1))
        (branch_to-Open n Instr.return_ (length s.control_stack - 1) s (omega (arith, h.1)) h))
      (mark_frame_unreachable-Open n)

-- Every label of the table was checked against the same number of frames.
pub push_branches-Open :
    (n : ℕ) (type : Option ValType) (labels : List ℕ) (s : ExprState)
    → All (λ label. label < n) labels
    → Open n s
    → Yields (Open n) (push_branches type labels s)
unfolding push_branches
push_branches-Open n type [] s a h = h
push_branches-Open n type (label ∷ labels) s a h =
    asserted-Yields (Open n) (get_elem? s.control_stack label) _
      (get_elem?-lt s.control_stack label (omega (arith, h.1, a.0)))
      λ branch q.
        >>=-Yields (Open n) (Open n)
          (check (same_result (get_branch_frame_type branch) type)
              (validation_error inconsistent_labels)
            >> push_branch label s)
          _
          (check-Yields (Open n) (same_result (get_branch_frame_type branch) type)
            (validation_error inconsistent_labels) (push_branch label s) refl
            λ same. push_branch-Open n label s a.0 h)
          (λ s' h'. push_branches-Open n type labels s' a.1 h')
