-- ===== src/Parser/Expr/Ends.antt =====
-- `parse_expr` of lib/fizzy/parser_expr.cpp on every input: it ends, and no `assert` in it fails.
use fizzy.Common.{
  ℕ, zero, suc, ◌<◌, ◌≡◌, ◌≢◌, refl, ap, arith, Bool, false, List, [], ◌∷◌, Option, none, some,
  length, get_elem?-lt, ◌==◌, Bool-cases, inl, inr, if◌then◌else◌,
}
use fizzy.Common.{Result, ok, err, Error, parser_error, assertion_failed}
use fizzy.Types.{FuncType, Locals, Code}
use fizzy.Instructions.{instruction_type}
use fizzy.Module.{Module}
use fizzy.Parser.Monad.{◌>>=◌, lift}
use fizzy.Parser.Expr.{
  parse_instruction, update_max_height, expr_step, expr_loop, start, code_of, type_of_function,
  parse_expr,
}
use fizzy.Parser.Expr.Stacks.{ControlFrame, top}
use fizzy.Parser.Expr.State.{ExprContext, ExprState, apply_type}
use fizzy.Parser.Expr.Yields.{Yields, is_assertion}
use fizzy.Parser.Expr.Invariant.{IsFramed}
use fizzy.Parser.Expr.Keeps.{Open, apply_type-Open}
use fizzy.Parser.Expr.Gives.{Outcome, Gives}
use fizzy.Parser.Expr.Lookups.{IsTyped, All-get}
use fizzy.Parser.Expr.Handling.{after_lift}
use Prim.Native.Nat.{max}
use fizzy.Parser.Expr.Safe.{parse_instruction-Gives}

update_max_height-Open :
    (n : ℕ) (s : ExprState) → Open (suc n) s → Yields (Open (suc n)) (update_max_height s)
unfolding update_max_height
update_max_height-Open n s (f, e) = opened s.control_stack refl
  where
    opened :
        (frames : List ControlFrame)
        → s.control_stack ≡ frames
        → Yields (Open (suc n)) (elim (top frames) [
          | err e ↦ err e
          | ok frame ↦ ok (
              if frame.unreachable
              then s
              else record s { max_stack_height = max s.max_stack_height (length s.operand_stack) })
        ])
    opened [] q = absurd (omega (arith, e, ap length q))
    opened (x ∷ xs) q = elim (Bool-cases x.unreachable) [
      | inl unreachable ↦ rw unreachable (f, e)
      | inr reachable ↦ rw reachable (record { nested = f.nested; pending = f.pending }, e)
    ]

-- A round after its opcode.
step_body :
    (n : ℕ) (ctx : ExprContext) (opcode : ℕ) (s : ExprState)
    → IsTyped ctx.parsed
    → Open (suc n) s
    → Gives IsFramed (
        lift (update_max_height s) >>= λ s'.
        lift (apply_type (instruction_type opcode).inputs (instruction_type opcode).outputs s')
        >>= λ s''. parse_instruction ctx opcode s'')
step_body n ctx opcode s typed h =
    after_lift IsFramed (Open (suc n)) (update_max_height s) _ (update_max_height-Open n s h)
      λ s' h'.
        let type = instruction_type opcode in
        after_lift IsFramed (Open (suc n)) (apply_type type.inputs type.outputs s') _
          (apply_type-Open n type.inputs type.outputs s' h')
          λ s'' h''. parse_instruction-Gives n ctx opcode s'' typed h''

-- A round keeps the invariant and leaves fewer bytes.
Round : ℕ → Result (ExprState × List ℕ) → Type 0
Round size r = elim r [
  | ok (s, rest) ↦ IsFramed s × (length rest < size)
  | err e ↦ is_assertion e ≡ false
]

expr_step-Round :
    (n : ℕ) (ctx : ExprContext) (s : ExprState) (bs : List ℕ)
    → IsTyped ctx.parsed
    → Open (suc n) s
    → Round (length bs) (expr_step ctx s bs)
unfolding expr_step Round
expr_step-Round n ctx s [] typed h = refl
expr_step-Round n ctx s (b ∷ bs) typed h = closer _ ((step_body n ctx b s typed h).run bs)
  where
    closer :
        (r : Result (ExprState × List ℕ))
        → Outcome IsFramed (length bs) r
        → Round (suc (length bs)) r
    closer (ok (s, rest)) o = (o.0, omega (arith, o.1))
    closer (err e) o = o

-- There is a result, and it is no failed assertion.
abbrev Settled : {A : Type 0} → Option (Result A) → Type 0
Settled none = ⊥
Settled (some (ok a)) = Unit {0}
Settled (some (err e)) = is_assertion e ≡ false

-- With this much fuel, the loop ends from every state that keeps the invariant.
abbrev Suffices : ℕ → ExprContext → Type 0
Suffices fuel ctx =
    (n : ℕ) (s : ExprState) (bs : List ℕ)
    → length bs < fuel
    → Open (suc n) s
    → Settled (expr_loop fuel ctx s bs)

suc_positive : (k : ℕ) → (suc k == 0) ≡ false
suc_positive k = ground arith

-- After a round the loop ends there or goes on.
Round-continues :
    (fuel : ℕ) (ctx : ExprContext) (size : ℕ) (r : Result (ExprState × List ℕ))
    → Suffices fuel ctx
    → size < suc fuel
    → Round size r
    → Settled (elim r [
      | err e ↦ some (err e)
      | ok (s', rest) ↦
          if length s'.control_stack == 0 then some (ok (s', rest)) else expr_loop fuel ctx s' rest
    ])
unfolding Round
Round-continues fuel ctx size (ok (s', rest)) ih lt o = next (length s'.control_stack) refl
  where
    next :
        (k : ℕ)
        → length s'.control_stack ≡ k
        → Settled (if k == 0 then some (ok (s', rest)) else expr_loop fuel ctx s' rest)
    next zero e = tt
    next (suc k) e = rw (suc_positive k) (ih k s' rest (omega (arith, o.1, lt)) (o.0, e))
Round-continues fuel ctx size (err e) ih lt o = o

expr_loop-Settled : (fuel : ℕ) (ctx : ExprContext) → IsTyped ctx.parsed → Suffices fuel ctx
unfolding expr_loop
expr_loop-Settled zero ctx typed n s bs lt h = absurd (omega arith)
expr_loop-Settled (suc fuel) ctx typed n s bs lt h =
    Round-continues fuel ctx (length bs) (expr_step ctx s bs) (expr_loop-Settled fuel ctx typed) lt
      (expr_step-Round n ctx s bs typed h)

pub start-Open : (type : FuncType) → Open 1 (start type)
start-Open type = (
  record {
    nested = (omega arith, tt);
    pending = (record { branches = tt; own = λ e. cc (e) }, tt);
  },
  refl,
)

abbrev failed : {A : Type 0} → Result A → Bool
failed (ok a) = false
failed (err e) = is_assertion e

not_assertion :
    {A : Type 0} (e : Error)
    → is_assertion e ≡ false
    → ◌≢◌ {A = Result A} (err e) (err (parser_error assertion_failed))
not_assertion e h q = cc (ap failed q)

Settled-result :
    {A : Type 0} (o : Option (Result A))
    → Settled o
    → (r : Result A) × (o ≡ some r) × (r ≢ err (parser_error assertion_failed))
Settled-result none h = elim h [ ]
Settled-result (some (ok a)) h = (ok a, refl, λ e. cc)
Settled-result (some (err e)) h = (err e, refl, not_assertion e h)

pub type_of_function-some :
    (m : Module) (func_idx : ℕ)
    → IsTyped m
    → func_idx < length m.funcsec
    → (type : FuncType) × (type_of_function m func_idx ≡ some type)
type_of_function-some m func_idx typed h =
    let (type_idx, q) = get_elem?-lt m.funcsec func_idx h in
    rw (q, type_of_function)
      (get_elem?-lt m.typesec type_idx (All-get _ m.funcsec func_idx typed q))

pub parse_expr-Settled :
    (func_idx : ℕ) (locals : List Locals) (m : Module) (bs : List ℕ)
    → IsTyped m
    → func_idx < length m.funcsec
    → Settled (parse_expr func_idx locals m bs)
unfolding parse_expr
parse_expr-Settled func_idx locals m bs typed h =
    let (type, q) = type_of_function-some m func_idx typed h in
    rw (q, Settled)
      (coded _ (
        expr_loop-Settled (suc (length bs)) _ typed 0 (start type) bs (omega arith)
          (start-Open type)))
  where
    coded :
        (o : Option (Result (ExprState × List ℕ)))
        → Settled o
        → Settled {A = Code × List ℕ} (elim o [
          | none ↦ none
          | some (err e) ↦ some (err e)
          | some (ok (s, rest)) ↦ some (ok (code_of s, rest))
        ])
    coded none h = elim h [ ]
    coded (some (ok (s, rest))) h = tt
    coded (some (err e)) h = h

-- On every input, for a function of a module whose functions have their types, the parser of the
-- body ends with a result: the fuel of its model, one more than the bytes, never runs out. The
-- result is no failed assertion: no empty stack is popped, no frame that is not there is used,
-- and no immediate is written outside of the code.
pub parse_expr-total :
    (func_idx : ℕ) (locals : List Locals) (m : Module) (bs : List ℕ)
    → IsTyped m
    → func_idx < length m.funcsec
    → (r : Result (Code × List ℕ)) × (parse_expr func_idx locals m bs ≡ some r)
      × (r ≢ err (parser_error assertion_failed))
parse_expr-total func_idx locals m bs typed h =
    Settled-result (parse_expr func_idx locals m bs)
      (parse_expr-Settled func_idx locals m bs typed h)
