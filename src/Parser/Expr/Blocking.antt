-- ===== src/Parser/Expr/Blocking.antt =====
-- The instructions of lib/fizzy/parser_expr.cpp that open blocks, and `else`, keep the invariant of
-- the loop.
use fizzy.Common.{
  ℕ, suc, ◌+◌, ◌≡◌, refl, ap, ◌∙◌, arith, true, ◌||◌, List, [], ◌∷◌, ◌++◌, Option, length,
  length-append, ◌==◌,
}
use fizzy.Common.{◌>>◌, check, parser_error}
use fizzy.Common.{unexpected_else}
use fizzy.Types.{ValType}
use fizzy.Instr
use fizzy.Parser.Expr.Stacks.{ControlFrame, OperandStackType, top, update_result_stack}
use fizzy.Parser.Expr.State.{
  ExprState, push_opcode, push_value, push_instruction, emplace_frame, stored_bytes,
}
use fizzy.Parser.Expr.Blocks.{else_frame, handle_else}
use fizzy.Parser.Expr.Yields.{Yields, >>=-Yields, check-Yields}
use fizzy.Parser.Expr.Heights.{Above, update_result_stack-Above}
use fizzy.Parser.Expr.Invariant.{
  Fits, IsPending, IsFramed, All-IsPending-grow, IsPending-grow, store_u32-length,
  length-stored_bytes,
}
use fizzy.Parser.Expr.Keeps.{Open, Nested-grow}
use fizzy.Parser.Expr.Branching.{and_also}
use fizzy.Parser.Expr.BranchTable.{top-Yields, Above-top}

-- A new frame, with the code of an instruction that has room for an immediate where it is one.
fresh-IsPending :
    (size : ℕ) (frame : ControlFrame)
    → frame.br_immediate_offsets ≡ []
    → ((frame.instruction == Instr.if_ || frame.instruction == Instr.else_) ≡ true
        → Fits size (frame.code_offset + 1))
    → IsPending size frame
fresh-IsPending size frame e own = record { branches = rw e tt; own = own }

pub emplace_block-Open :
    (n opcode : ℕ) (type : Option ValType) (s : ExprState)
    → (opcode == Instr.block || opcode == Instr.loop) ≡ true
    → Open n s
    → Open (suc n) (push_opcode opcode (emplace_frame opcode type s))
unfolding push_opcode
emplace_block-Open n opcode type s o (f, e) = (
  record {
    nested = (omega arith, f.nested);
    pending = (
      fresh-IsPending _ _ refl (λ x. ground (arith)),
      All-IsPending-grow s.control_stack (omega (arith, length-append s.instructions (opcode ∷ [])))
          f.pending,
    );
  },
  ap suc e,
)

pub emplace_if-Open :
    (n : ℕ) (type : Option ValType) (s : ExprState)
    → Open n s
    → Open (suc n) (push_instruction Instr.if_ 4 0 (emplace_frame Instr.if_ type s))
unfolding push_opcode push_value
emplace_if-Open n type s (f, e) = (
  record {
    nested = (omega arith, f.nested);
    pending = (
      fresh-IsPending _ _ refl (λ x. omega (arith, size)),
      All-IsPending-grow s.control_stack (omega (arith, size)) f.pending,
    );
  },
  ap suc e,
)
  where
    size :
        length ((s.instructions ++ Instr.if_ ∷ []) ++ stored_bytes 4 0) ≡ length s.instructions + 5
    size = omega (
      arith,
      length-append (s.instructions ++ Instr.if_ ∷ []) (stored_bytes 4 0),
      length-append s.instructions (Instr.if_ ∷ []),
      length-stored_bytes 4 0,
    )

abbrev pub SameLength : List ℕ → List ℕ → Type 0
SameLength code filled = length filled ≡ length code

pushed_size :
    (code : List ℕ) (opcode value : ℕ)
    → length ((code ++ opcode ∷ []) ++ stored_bytes 4 value) ≡ length code + 5
pushed_size code opcode value = omega (
  arith,
  length-append (code ++ opcode ∷ []) (stored_bytes 4 value),
  length-append code (opcode ∷ []),
  length-stored_bytes 4 value,
)

-- What the code is after an instruction with an immediate.
abbrev with_else : List ℕ → List ℕ
with_else code = (code ++ Instr.else_ ∷ []) ++ stored_bytes 4 0

-- The frame of `else` stands where that of its `if` stood, and has its branches.
else_frame-IsFramed :
    (s : ExprState) (x : ControlFrame) (below : List ControlFrame) (stack : List OperandStackType)
    (code : List ℕ)
    → IsFramed s
    → s.control_stack ≡ x ∷ below
    → Above x stack
    → length code ≡ length s.instructions + 5
    → IsFramed (record (else_frame x (record s { operand_stack = stack })) { instructions = code })
else_frame-IsFramed s x below stack code f q a size =
    let stand = rw q at f.nested in
    let kept = rw q at f.pending in
    rw q (record {
      nested = (omega arith, Nested-grow below a stand.1);
      pending = (
        record {
          branches = (IsPending-grow {frame = x} (omega (arith, size)) kept.0).branches;
          own = λ t. omega (arith, size);
        },
        All-IsPending-grow below (omega (arith, size)) kept.1,
      );
    })

pub handle_else-Open :
    (n : ℕ) (s : ExprState) → Open (suc n) s → Yields (Open (suc n)) (handle_else s)
unfolding handle_else push_opcode push_value
handle_else-Open n s (f, e) =
    >>=-Yields (λ x. (below : List ControlFrame) × (s.control_stack ≡ x ∷ below)) (Open (suc n))
      (top s.control_stack) _ (top-Yields s.control_stack e)
      λ x (below, q).
        >>=-Yields (λ stack. ((x.instruction == Instr.if_) ≡ true) × Above x stack) (Open (suc n))
          (check (x.instruction == Instr.if_) (parser_error unexpected_else)
            >> update_result_stack x s.operand_stack)
          _
          (check-Yields (λ stack. ((x.instruction == Instr.if_) ≡ true) × Above x stack)
            (x.instruction == Instr.if_) (parser_error unexpected_else)
            (update_result_stack x s.operand_stack) refl
            λ conditional.
              and_also ((x.instruction == Instr.if_) ≡ true) (Above x)
                (update_result_stack x s.operand_stack) conditional
                (update_result_stack-Above x s.operand_stack (Above-top s x below f q)))
          λ stack (conditional, a).
            >>=-Yields (SameLength (with_else s.instructions)) (Open (suc n)) _ _
              (store_u32-length (x.code_offset + 1) (length (with_else s.instructions))
                (with_else s.instructions)
                (omega (
                  arith,
                  pushed_size s.instructions Instr.else_ 0,
                  (rw q at f.pending).0.own (rw conditional refl),
                )))
              λ code size. (
                else_frame-IsFramed s x below stack code f q a
                    (size ∙ pushed_size s.instructions Instr.else_ 0),
                rw q (rw q at e),
              )
