-- ===== src/Parser/Expr/Keeps.antt =====
-- The steps on the state of `parse_expr` in lib/fizzy/parser_expr.cpp keep its invariant.
use fizzy.Common.{
  ℕ, zero, suc, ◌≤◌, ◌≡◌, refl, arith, true, List, [], ◌∷◌, some, All, length, get_elem?, set,
  length-append, ap, subst,
}
use fizzy.Common.{Result, ok, ◌>>=◌}
use fizzy.Types.{ValType}
use fizzy.Parser.Expr.Stacks.{
  ControlFrame, OperandStackType, top, shrink, update_operand_stack, drop_operand,
}
use fizzy.Parser.Expr.State.{
  ExprState, push_opcode, push_value, push_operand, apply_type, drop_type, mark_frame_unreachable,
  stored_bytes,
}
use fizzy.Parser.Expr.Yields.{Yields, >>=-Yields}
use fizzy.Parser.Expr.Heights.{Above, update_operand_stack-Above, drop_operand-Above, shrink-length}
use fizzy.Parser.Expr.Invariant.{Nested, IsPending, IsFramed, All-IsPending-grow}

-- A step inside of a body: the invariant, and as many frames as `n`.
abbrev pub Open : ℕ → ExprState → Type 0
Open n s = IsFramed s × (length s.control_stack ≡ n)

pub push_opcode-Open : (n opcode : ℕ) (s : ExprState) → Open n s → Open n (push_opcode opcode s)
unfolding push_opcode
push_opcode-Open n opcode s (f, e) = (
  record {
    nested = f.nested;
    pending =
        All-IsPending-grow s.control_stack
          (omega (arith, length-append s.instructions (opcode ∷ []))) f.pending;
  },
  e,
)

pub push_value-Open :
    (n size value : ℕ) (s : ExprState) → Open n s → Open n (push_value size value s)
unfolding push_value
push_value-Open n size value s (f, e) = (
  record {
    nested = f.nested;
    pending =
        All-IsPending-grow s.control_stack
          (omega (arith, length-append s.instructions (stored_bytes size value))) f.pending;
  },
  e,
)

-- A step that changes the operands alone, and stays above the begin of the top frame.
operands-Open :
    (n : ℕ) (s : ExprState)
    (step : ControlFrame → List OperandStackType → Result (List OperandStackType))
    → ((f : ControlFrame) (stack : List OperandStackType)
        → Above f stack
        → Yields (Above f) (step f stack))
    → Open (suc n) s
    → Yields (Open (suc n)) (
        top s.control_stack >>= λ frame.
        step frame s.operand_stack >>= λ stack. ok (record s { operand_stack = stack }))
operands-Open n s step keeps (f, e) = opened s.control_stack refl
  where
    opened :
        (frames : List ControlFrame)
        → s.control_stack ≡ frames
        → Yields (Open (suc n)) (
            top frames >>= λ frame.
            step frame s.operand_stack >>= λ stack. ok (record s { operand_stack = stack }))
    opened [] q = absurd (omega (arith, e, ap length q))
    opened (x ∷ xs) q =
        let stand = rw q at f.nested in
        >>=-Yields (Above x) (Open (suc n)) (step x s.operand_stack) _
          (keeps x s.operand_stack stand.0)
          (λ stack a. (record { nested = rw q (a, stand.1); pending = f.pending }, e))

pub apply_type-Open :
    (n : ℕ) (inputs outputs : List ValType) (s : ExprState)
    → Open (suc n) s
    → Yields (Open (suc n)) (apply_type inputs outputs s)
unfolding apply_type
apply_type-Open n inputs outputs s =
    operands-Open n s (λ frame stack. update_operand_stack frame stack inputs outputs)
      (λ f stack a. update_operand_stack-Above f stack inputs outputs a)

pub drop_type-Open :
    (n : ℕ) (type : OperandStackType) (s : ExprState)
    → Open (suc n) s
    → Yields (Open (suc n)) (drop_type type s)
unfolding drop_type
drop_type-Open n type s =
    operands-Open n s (λ frame stack. drop_operand frame stack type)
      (λ f stack a. drop_operand-Above f stack type a)

pub Nested-grow : (frames : List ControlFrame) {h k : ℕ} → h ≤ k → Nested frames h → Nested frames k
Nested-grow [] le n = tt
Nested-grow (x ∷ xs) le n = (omega (arith, n.0), n.1)

pub push_operand-Open :
    (n : ℕ) (type : OperandStackType) (s : ExprState) → Open n s → Open n (push_operand type s)
push_operand-Open n type s (f, e) =
    (record { nested = Nested-grow s.control_stack (omega arith) f.nested; pending = f.pending }, e)

pub mark_frame_unreachable-Open :
    (n : ℕ) (s : ExprState) → Open (suc n) s → Yields (Open (suc n)) (mark_frame_unreachable s)
unfolding mark_frame_unreachable
mark_frame_unreachable-Open n s (f, e) = opened s.control_stack refl
  where
    opened :
        (frames : List ControlFrame)
        → s.control_stack ≡ frames
        → Yields (Open (suc n)) (
            top frames >>= λ frame. shrink frame.parent_stack_height s.operand_stack >>= λ stack.
            ok (record s {
              control_stack = set frames 0 (record frame { unreachable = true });
              operand_stack = stack;
            }))
    opened [] q = absurd (omega (arith, e, ap length q))
    opened (x ∷ xs) q =
        let stand = rw q at f.nested in
        let kept = rw q at f.pending in
        >>=-Yields (λ stack. length stack ≡ x.parent_stack_height) (Open (suc n))
          (shrink x.parent_stack_height s.operand_stack) _
          (shrink-length x.parent_stack_height s.operand_stack stand.0)
          (λ stack len. (
            record {
              nested = (omega (arith, len), stand.1);
              pending = (record { branches = kept.0.branches; own = kept.0.own }, kept.1);
            },
            rw q at e,
          ))

pub All-at :
    {m : ℕ} (frames : List ControlFrame) (i : ℕ) {f : ControlFrame}
    → All (IsPending m) frames
    → get_elem? frames i ≡ some f
    → IsPending m f
All-at [] i a q = cc
All-at (x ∷ xs) zero a q = subst (IsPending _) (cc (q)) a.0
All-at (x ∷ xs) (suc i) a q = All-at xs i a.1 q

pub All-set :
    {m : ℕ} (frames : List ControlFrame) (i : ℕ) (f : ControlFrame)
    → All (IsPending m) frames
    → IsPending m f
    → All (IsPending m) (set frames i f)
All-set [] i f a p = tt
All-set (x ∷ xs) zero f a p = (p, a.1)
All-set (x ∷ xs) (suc i) f a p = (a.0, All-set xs i f a.1 p)

pub length-set :
    (frames : List ControlFrame) (i : ℕ) (f : ControlFrame)
    → length (set frames i f) ≡ length frames
length-set [] i f = refl
length-set (x ∷ xs) zero f = refl
length-set (x ∷ xs) (suc i) f = ap suc (length-set xs i f)
