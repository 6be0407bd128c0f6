-- ===== src/Parser/Expr/Closing.antt =====
-- `end` of lib/fizzy/parser_expr.cpp keeps the invariant of the loop, and pops one frame.
use fizzy.Common.{
  ℕ, suc, ◌+◌, ◌≡◌, refl, ap, arith, false, not, ◌&&◌, ◌||◌, List, [], ◌∷◌, Option, none, some,
  length, ◌==◌, Bool-cases, inl, inr,
}
use fizzy.Common.{ok, ◌>>=◌, ◌>>◌, check, assert, validation_error}
use fizzy.Common.{missing_else_result}
use fizzy.Types.{ValType}
use fizzy.Instr
use fizzy.Parser.Expr.Stacks.{ControlFrame, OperandStackType, shrink, update_result_stack}
use fizzy.Parser.Expr.State.{ExprState, push_opcode, store_u32, store_at_all}
use fizzy.Parser.Expr.Blocks.{
  fill_immediates, push_result, is_some, end_target, close_frame, handle_end,
}
use fizzy.Parser.Expr.Yields.{Yields, >>=-Yields, check-Yields}
use fizzy.Parser.Expr.Heights.{Above, update_result_stack-Above, shrink-length}
use fizzy.Parser.Expr.Invariant.{
  Nested, IsPending, IsPending-grow, store_u32-length, store_at_all-length,
}
use fizzy.Parser.Expr.Keeps.{Open, push_opcode-Open, Nested-grow}
use fizzy.Parser.Expr.BranchTable.{Above-top}
use fizzy.Parser.Expr.Blocking.{SameLength}

-- The immediates of the frame are inside of the code.
fill_immediates-length :
    (frame : ControlFrame) (target_pc : ℕ) (code : List ℕ)
    → IsPending (length code) frame
    → Yields (SameLength code) (fill_immediates frame target_pc code)
unfolding fill_immediates
fill_immediates-length frame target_pc code p =
    elim (Bool-cases (frame.instruction == Instr.loop)) [
      | inl loop ↦ rw loop refl
      | inr other ↦
          rw other
            (elim (Bool-cases
              (frame.instruction == Instr.if_ || frame.instruction == Instr.else_)) [
                | inl conditional ↦ rw conditional (
                    >>=-Yields (SameLength code) (SameLength code)
                      (store_u32 (frame.code_offset + 1) target_pc code)
                      (λ filled. store_at_all frame.br_immediate_offsets target_pc filled)
                      (store_u32-length (frame.code_offset + 1) target_pc code (p.own conditional))
                      (λ filled e. rw e at (
                        store_at_all-length frame.br_immediate_offsets target_pc filled
                          (IsPending-grow {frame = frame} (omega (arith, e)) p).branches)))
                | inr plain ↦
                    rw plain
                      (store_at_all-length frame.br_immediate_offsets target_pc code p.branches)
              ])
    ]

push_result-Nested :
    (below : List ControlFrame) (type : Option ValType) (stack : List OperandStackType)
    → Nested below (length stack)
    → Nested below (length (push_result below type stack))
push_result-Nested [] type stack n = tt
push_result-Nested (f ∷ fs) none stack n = n
push_result-Nested (f ∷ fs) (some t) stack n = Nested-grow (f ∷ fs) (omega arith) n

-- The end of a frame: its operands go, and what it left open is filled.
pub handle_end-Open : (n : ℕ) (s : ExprState) → Open (suc n) s → Yields (Open n) (handle_end s)
unfolding handle_end
handle_end-Open n s (f, e) = opened s.control_stack refl
  where
    closed :
        (x : ControlFrame) (below : List ControlFrame) (stack : List OperandStackType)
        (code : List ℕ)
        → s.control_stack ≡ x ∷ below
        → Above x stack
        → SameLength s.instructions code
        → Yields (Open n) (close_frame x below (record s { operand_stack = stack }) code)
    closed x below stack code q a size =
        >>=-Yields (λ kept. length kept ≡ x.parent_stack_height) (Open n)
          (shrink x.parent_stack_height stack) _ (shrink-length x.parent_stack_height stack a)
          λ kept len. (
            record {
              nested = push_result-Nested below x.type kept (rw len (rw q at f.nested).1);
              pending = rw size (rw q at f.pending).1;
            },
            omega (arith, e, ap length q),
          )

    opened :
        (frames : List ControlFrame)
        → s.control_stack ≡ frames
        → Yields (Open n) (elim frames [
          | [] ↦ assert false >> ok s
          | x ∷ below ↦ update_result_stack x s.operand_stack >>= λ stack.
              check
                (not (is_some x.type && x.instruction == Instr.if_))
                (validation_error missing_else_result)
              >> fill_immediates x (end_target s) s.instructions
              >>= λ code. close_frame x below (record s { operand_stack = stack }) code >>= λ done.
                  ok (push_opcode Instr.end done)
        ])
    opened [] q = absurd (omega (arith, e, ap length q))
    opened (x ∷ below) q =
        >>=-Yields (Above x) (Open n) (update_result_stack x s.operand_stack) _
          (update_result_stack-Above x s.operand_stack (Above-top s x below f q))
          λ stack a.
            >>=-Yields (SameLength s.instructions) (Open n) _ _
              (check-Yields (SameLength s.instructions)
                (not (is_some x.type && x.instruction == Instr.if_))
                (validation_error missing_else_result)
                (fill_immediates x (end_target s) s.instructions) refl
                λ t. fill_immediates-length x (end_target s) s.instructions (rw q at f.pending).0)
              λ code size.
                >>=-Yields (Open n) (Open n) _ _ (closed x below stack code q a size)
                  (λ done h. push_opcode-Open n Instr.end done h)
