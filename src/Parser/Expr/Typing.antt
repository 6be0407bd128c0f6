-- ===== src/Parser/Expr/Typing.antt =====
-- What `update_operand_stack` of lib/fizzy/parser_expr.cpp does to the types of the operands in code
-- that can be reached.
use fizzy.Common.{
  ◌+◌, ◌≤◌, ◌≡◌, ◌↔◌, refl, sym, ap, subst, arith, true, false, not, ◌&&◌, List, [], ◌∷◌, ◌++◌,
  length, ltb, Bool-cases, inl, inr,
}
use fizzy.Common.{Result, ok, err, ◌>>=◌}
use fizzy.Types.{ValType}
use fizzy.Parser.Expr.Stacks.{
  ControlFrame, OperandStackType, from_valtype, type_matches, pop_inputs, push_outputs,
  update_operand_stack,
}
use mathlib.Core.List.{reverse}

-- Operands of the expected types, one for each.
abbrev pub Matches : List OperandStackType → List ValType → Type 0
Matches [] [] = Unit {0}
Matches [] (t ∷ ts) = ⊥
Matches (x ∷ xs) [] = ⊥
Matches (x ∷ xs) (t ∷ ts) = (type_matches x (from_valtype t) ≡ true) × Matches xs ts

-- The operands at the top match the types, and these are below.
pub record Pops (ts : List ValType) (stack below : List OperandStackType) : Type 0 where
  pub popped : List OperandStackType
  pub split : stack ≡ popped ++ below
  pub matching : Matches popped ts

pop_inputs-Pops :
    (frame : ControlFrame) (ts : List ValType) (stack below : List OperandStackType)
    → frame.unreachable ≡ false
    → pop_inputs frame ts stack ≡ ok below
    → Pops ts stack below
unfolding pop_inputs
pop_inputs-Pops frame [] stack below r e = record { popped = []; split = cc (e); matching = tt }
pop_inputs-Pops frame (t ∷ ts) [] below r e = cc (rw r at e)
pop_inputs-Pops frame (t ∷ ts) (x ∷ xs) below r e =
    elim (Bool-cases (type_matches x (from_valtype t))) [
      | inl good ↦
          let more = pop_inputs-Pops frame ts xs below r (rw (r, good) at e) in
          record {
            popped = x ∷ more.popped;
            split = ap (λ l. x ∷ l) more.split;
            matching = (good, more.matching);
          }
      | inr bad ↦ cc (rw (r, bad) at e)
    ]

Pops-pop_inputs :
    (frame : ControlFrame) (ts : List ValType) (popped below : List OperandStackType)
    → frame.unreachable ≡ false
    → Matches popped ts
    → pop_inputs frame ts (popped ++ below) ≡ ok below
unfolding pop_inputs
Pops-pop_inputs frame [] [] below r m = refl
Pops-pop_inputs frame [] (x ∷ xs) below r m = elim m [ ]
Pops-pop_inputs frame (t ∷ ts) [] below r m = elim m [ ]
Pops-pop_inputs frame (t ∷ ts) (x ∷ xs) below r m =
    rw (r, m.0) (Pops-pop_inputs frame ts xs below r m.1)

enough_operands :
    (frame : ControlFrame) (stack : List OperandStackType) (inputs : List ValType)
    → frame.unreachable ≡ false
    → (not frame.unreachable && ltb (length stack) (frame.parent_stack_height + length inputs))
      ≡ false
    → frame.parent_stack_height + length inputs ≤ length stack
enough_operands frame stack inputs r e = ground arith

no_underflow :
    (frame : ControlFrame) (stack : List OperandStackType) (inputs : List ValType)
    → frame.unreachable ≡ false
    → frame.parent_stack_height + length inputs ≤ length stack
    → (not frame.unreachable && ltb (length stack) (frame.parent_stack_height + length inputs))
      ≡ false
no_underflow frame stack inputs r h = ground arith

-- In code that can be reached, the types of an instruction apply to the operand stack with a
-- result exactly when the frame has as many operands as inputs, the topmost match the inputs, the
-- last input at the top, and the result is the outputs on what is below them.
pub update_operand_stack_iff :
    (frame : ControlFrame) (stack result : List OperandStackType) (inputs outputs : List ValType)
    → frame.unreachable ≡ false
    → (update_operand_stack frame stack inputs outputs ≡ ok result) ↔ (
        (frame.parent_stack_height + length inputs ≤ length stack)
        × (below : List OperandStackType) × Pops (reverse inputs) stack below
        × (push_outputs outputs below ≡ result))
unfolding update_operand_stack
update_operand_stack_iff frame stack result inputs outputs r = (
  λ e.
      elim (Bool-cases
        (not frame.unreachable && ltb (length stack) (frame.parent_stack_height + length inputs))) [
          | inl short ↦ cc (rw short at e)
          | inr enough ↦
              let (below, p, q) =
                opened (pop_inputs frame (reverse inputs) stack) refl (rw enough at e) in
              (enough_operands frame stack inputs r enough, below, p, q)
        ],
  λ (enough, below, p, q).
      let popped : pop_inputs frame (reverse inputs) stack ≡ ok below =
        subst (λ s. pop_inputs frame (reverse inputs) s ≡ ok below) (sym p.split)
          (Pops-pop_inputs frame (reverse inputs) p.popped below r p.matching) in
      rw (no_underflow frame stack inputs r enough, popped) (ap ok q),
)
  where
    opened :
        (m : Result (List OperandStackType))
        → pop_inputs frame (reverse inputs) stack ≡ m
        → (m >>= λ below. ok (push_outputs outputs below)) ≡ ok result
        → (below : List OperandStackType) × Pops (reverse inputs) stack below
          × (push_outputs outputs below ≡ result)
    opened (ok below) q e = (below, pop_inputs-Pops frame (reverse inputs) stack below r q, cc (e))
    opened (err x) q e = cc (e)
