-- ===== src/Parser/Expr/Safe.antt =====
-- `parse_expr` of lib/fizzy/parser_expr.cpp on every input: it ends, no `assert` in it fails, and no
-- byte is written outside of the code.
use fizzy.Common.{ℕ, suc, ◌≡◌, refl, Bool, true, false, List, [], ◌∷◌, length, switch}
use fizzy.Common.{Result, ok, err, parser_error, invalid_instruction}
use fizzy.Parser.Monad.{Parser, throw, lift}
use fizzy.Parser.Expr.{then_opcode, cases, parse_instruction}
use fizzy.Parser.Expr.Stacks.{unknown}
use fizzy.Parser.Expr.State.{ExprContext, ExprState}
use fizzy.Parser.Expr.Blocks.{handle_else, handle_end, handle_return}
use fizzy.Parser.Expr.Yields.{Yields}
use fizzy.Parser.Expr.Invariant.{IsFramed}
use fizzy.Parser.Expr.Keeps.{Open, push_opcode-Open, drop_type-Open, mark_frame_unreachable-Open}
use fizzy.Parser.Expr.Branching.{handle_return-Open}
use fizzy.Parser.Expr.Blocking.{handle_else-Open}
use fizzy.Parser.Expr.Closing.{handle_end-Open}
use fizzy.Parser.Expr.Gives.{Outcome, Gives, return-Gives, lift-Gives, throw-Gives}
use fizzy.Parser.Expr.Lookups.{IsTyped}
use fizzy.Parser.Expr.Handling.{
  after_lift, handle_block-Gives, handle_if-Gives, handle_br-Gives, handle_br_if-Gives,
  handle_br_table-Gives, handle_select-Gives,
}
use fizzy.Parser.Expr.Access.{
  handle_call-Gives, handle_call_indirect-Gives, handle_local_get-Gives, handle_local_set-Gives,
  handle_local_tee-Gives, handle_global_get-Gives, handle_global_set-Gives, handle_int_const-Gives,
  handle_float_const-Gives, handle_memory_access-Gives, handle_memory-Gives,
}

-- A state between two instructions: the invariant alone, whatever the number of frames.
weaker : (n : ℕ) (p : Parser ExprState) → Gives (Open n) p → Gives IsFramed p
weaker n p g = record { run = λ bs. opened (length bs) (p bs) (g.run bs) }
  where
    opened :
        (size : ℕ) (r : Result (ExprState × List ℕ))
        → Outcome (Open n) size r
        → Outcome IsFramed size r
    opened size (ok (s, rest)) o = (o.0.0, o.1)
    opened size (err e) o = o

-- A case is taken when its test holds.
abbrev Chosen : Bool × Parser ExprState → Type 0
Chosen c = c.0 ≡ true → Gives IsFramed c.1

infixr 2 ◌also◌
data EachGives : List (Bool × Parser ExprState) → Type 0 where
  no_more : EachGives []
  ◌also◌ :
      {c : Bool × Parser ExprState} {cs : List (Bool × Parser ExprState)}
      → Chosen c
      → EachGives cs
      → EachGives (c ∷ cs)

switch-Gives :
    (choices : List (Bool × Parser ExprState)) (otherwise : Parser ExprState)
    → EachGives choices
    → Gives IsFramed otherwise
    → Gives IsFramed (switch choices otherwise)
switch-Gives [] otherwise no_more g = g
switch-Gives ((true, p) ∷ choices) otherwise (x also a) g = x refl
switch-Gives ((false, p) ∷ choices) otherwise (x also a) g = switch-Gives choices otherwise a g

then_opcode-Gives :
    (n opcode : ℕ) (r : Result ExprState)
    → Yields (Open n) r
    → Gives IsFramed (then_opcode opcode r)
unfolding then_opcode
then_opcode-Gives n opcode r y = weaker n (then_opcode opcode r) (
    after_lift (Open n) (Open n) r _ y
      λ s h. return-Gives (Open n) _ (push_opcode-Open n opcode s h))

lifted : (n : ℕ) (r : Result ExprState) → Yields (Open n) r → Gives IsFramed (lift r)
lifted n r y = weaker n (lift r) (lift-Gives (Open n) r y)

-- In a module whose functions have their types, and from a state with a frame, every instruction,
-- with any opcode and any bytes behind it, either throws, by no failed assertion, or gives a
-- state where again each frame begins at or above the one below it, the top one no higher than
-- the operand stack, and every immediate that is still to be filled lies inside of the code.
pub parse_instruction-Gives :
    (n : ℕ) (ctx : ExprContext) (opcode : ℕ) (s : ExprState)
    → IsTyped ctx.parsed
    → Open (suc n) s
    → Gives IsFramed (parse_instruction ctx opcode s)
unfolding parse_instruction
parse_instruction-Gives n ctx opcode s typed h =
    switch-Gives (cases ctx opcode s) (throw (parser_error (invalid_instruction opcode)))
      ((λ _. then_opcode-Gives (suc n) opcode _ (mark_frame_unreachable-Open n s h))
        also (λ _. then_opcode-Gives (suc n) opcode _ (drop_type-Open n unknown s h))
        also (λ _. weaker (suc n) _ (handle_select-Gives n s h))
        also (λ _. then_opcode-Gives (suc n) opcode (ok s) h)
        also (λ t. weaker (suc (suc n)) _ (handle_block-Gives (suc n) opcode s t h))
        also (λ _. weaker (suc (suc n)) _ (handle_if-Gives (suc n) s h))
        also (λ _. lifted (suc n) (handle_else s) (handle_else-Open n s h))
        also (λ _. lifted n (handle_end s) (handle_end-Open n s h))
        also (λ _. weaker (suc n) _ (handle_br-Gives n s h))
        also (λ _. weaker (suc n) _ (handle_br_if-Gives n s h))
        also (λ _. weaker (suc n) _ (handle_br_table-Gives n s h))
        also (λ _. lifted (suc n) (handle_return s) (handle_return-Open n s h))
        also (λ _. weaker (suc n) _ (handle_call-Gives n ctx typed s h))
        also (λ _. weaker (suc n) _ (handle_call_indirect-Gives n ctx s h))
        also (λ _. weaker (suc n) _ (handle_local_get-Gives n ctx s h))
        also (λ _. weaker (suc n) _ (handle_local_set-Gives n ctx s h))
        also (λ _. weaker (suc n) _ (handle_local_tee-Gives n ctx s h))
        also (λ _. weaker (suc n) _ (handle_global_get-Gives n ctx s h))
        also (λ _. weaker (suc n) _ (handle_global_set-Gives n ctx s h))
        also (λ _. weaker (suc n) _ (handle_int_const-Gives n opcode 4 s h))
        also (λ _. weaker (suc n) _ (handle_int_const-Gives n opcode 8 s h))
        also (λ _. weaker (suc n) _ (handle_float_const-Gives n opcode 4 s h))
        also (λ _. weaker (suc n) _ (handle_float_const-Gives n opcode 8 s h))
        also (λ _. weaker (suc n) _ (handle_memory_access-Gives n ctx opcode s h))
        also (λ _. weaker (suc n) _ (handle_memory-Gives n ctx opcode s h))
        also no_more)
      (throw-Gives IsFramed _ refl)
