-- ===== src/Parser/Expr/Handling.antt =====
-- Every case of the `switch` in `parse_expr` of lib/fizzy/parser_expr.cpp keeps the invariant of the
-- loop, in a module whose functions have their types.
use fizzy.Common.{
  ℕ, suc, ◌≡◌, refl, arith, true, ◌||◌, List, [], ◌∷◌, length, ltb, if◌then◌else◌, ◌==◌,
}
use fizzy.Common.{Result, ok}
use fizzy.Instr
use fizzy.Parser.Monad.{Parser, ◌>>=◌, return, lift}
use fizzy.Parser.Basic.{parse_u32, parse_vec_i32}
use fizzy.Parser.Expr.Stacks.{OperandStackType, unknown, top}
use fizzy.Parser.Expr.State.{ExprState, push_opcode, push_instruction, drop_type}
use fizzy.Parser.Expr.Blocks.{br, br_if, br_table}
use fizzy.Parser.Expr.Handlers.{
  parse_blocktype, handle_block, handle_if, handle_br, handle_br_if, handle_br_table, handle_select,
}
use fizzy.Parser.Expr.Yields.{Yields}
use fizzy.Parser.Expr.Keeps.{
  Open, push_opcode-Open, push_value-Open, push_operand-Open, drop_type-Open,
}
use fizzy.Parser.Expr.Branching.{br-Open, br_if-Open}
use fizzy.Parser.Expr.BranchTable.{br_table-Open}
use fizzy.Parser.Expr.Blocking.{emplace_block-Open, emplace_if-Open}
use fizzy.Parser.Expr.Gives.{
  Gives, Plain, >>=-Gives, ensure-Gives, return-Gives, lift-Gives, parse_u32-Plain,
  parse_vec_i32-Plain,
}
use fizzy.Parser.Expr.Lookups.{parse_blocktype-Plain}

-- Nothing is asked of the value that the first parser gives.
pub after :
    {A : Type 0} (R : ExprState → Type 0) (p : Parser A) (f : A → Parser ExprState)
    → Plain p
    → ((a : A) → Gives R (f a))
    → Gives R (p >>= f)
after R p f g k = >>=-Gives (λ _. Unit {0}) R p f g λ a u. k a

pub after_lift :
    {A : Type 0} (R : ExprState → Type 0) (Q : A → Type 0) (r : Result A) (f : A → Parser ExprState)
    → Yields Q r
    → ((a : A) → Q a → Gives R (f a))
    → Gives R (lift r >>= f)
after_lift R Q r f y k = >>=-Gives Q R (lift r) f (lift-Gives Q r y) k

-- The end of a handler: an instruction with its immediate.
pub instruction-Open :
    (n opcode size value : ℕ) (s : ExprState)
    → Open n s
    → Gives (Open n) (return (push_instruction opcode size value s))
instruction-Open n opcode size value s h =
    return-Gives (Open n) _
      (push_value-Open n size value (push_opcode opcode s) (push_opcode-Open n opcode s h))

pub handle_block-Gives :
    (n opcode : ℕ) (s : ExprState)
    → (opcode == Instr.block || opcode == Instr.loop) ≡ true
    → Open n s
    → Gives (Open (suc n)) (handle_block opcode s)
unfolding handle_block
handle_block-Gives n opcode s o h =
    after (Open (suc n)) parse_blocktype _ parse_blocktype-Plain
      λ type. return-Gives (Open (suc n)) _ (emplace_block-Open n opcode type s o h)

pub handle_if-Gives : (n : ℕ) (s : ExprState) → Open n s → Gives (Open (suc n)) (handle_if s)
unfolding handle_if
handle_if-Gives n s h =
    after (Open (suc n)) parse_blocktype _ parse_blocktype-Plain
      λ type. return-Gives (Open (suc n)) _ (emplace_if-Open n type s h)

module _ (n : ℕ) where
  pub handle_br-Gives : (s : ExprState) → Open (suc n) s → Gives (Open (suc n)) (handle_br s)
  unfolding handle_br
  handle_br-Gives s h =
      after (Open (suc n)) parse_u32 _ parse_u32-Plain
        λ label. lift-Gives (Open (suc n)) (br label s) (br-Open n label s h)

  pub handle_br_if-Gives : (s : ExprState) → Open (suc n) s → Gives (Open (suc n)) (handle_br_if s)
  unfolding handle_br_if
  handle_br_if-Gives s h =
      after (Open (suc n)) parse_u32 _ parse_u32-Plain
        λ label. lift-Gives (Open (suc n)) (br_if label s) (br_if-Open n label s h)

  pub handle_br_table-Gives :
      (s : ExprState) → Open (suc n) s → Gives (Open (suc n)) (handle_br_table s)
  unfolding handle_br_table
  handle_br_table-Gives s h = after (Open (suc n)) parse_vec_i32 _ parse_vec_i32-Plain λ labels.
      after (Open (suc n)) parse_u32 _ parse_u32-Plain
        λ d. lift-Gives (Open (suc n)) (br_table labels d s) (br_table-Open n d labels s h)

  -- The operand that `select` looks at is there.
  selected_type :
      (stack : List OperandStackType) (parent : ℕ)
      → Yields (λ _. Unit {0}) (if ltb parent (length stack) then top stack else ok unknown)
  selected_type [] parent = ground arith
  selected_type (x ∷ xs) parent = ground arith

  pub handle_select-Gives :
      (s : ExprState) → Open (suc n) s → Gives (Open (suc n)) (handle_select s)
  unfolding handle_select
  handle_select-Gives s h =
      >>=-Gives (λ _. Unit {0}) (Open (suc n)) (lift (top s.control_stack)) _
        (lift-Gives (λ _. Unit {0}) (top s.control_stack) (top_there s.control_stack h.1))
        λ frame u. ensure-Gives (Open (suc n)) _ _ _ refl λ enough.
          after_lift (Open (suc n)) (λ _. Unit {0}) _ _
            (selected_type s.operand_stack frame.parent_stack_height)
            λ type v.
              after_lift (Open (suc n)) (Open (suc n)) (drop_type type s) _
                (drop_type-Open n type s h)
                λ s' h'.
                  after_lift (Open (suc n)) (Open (suc n)) (drop_type type s') _
                    (drop_type-Open n type s' h')
                    λ s'' h''. return-Gives (Open (suc n)) _ (
                      push_opcode-Open (suc n) Instr.select _
                        (push_operand-Open (suc n) type s'' h''))
    where
      top_there :
          {A : Type 0} (xs : List A) {k : ℕ} → length xs ≡ suc k → Yields (λ _. Unit {0}) (top xs)
      top_there [] e = absurd (omega (arith, e))
      top_there (x ∷ xs) e = tt
