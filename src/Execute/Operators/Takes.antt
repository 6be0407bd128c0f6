-- ===== src/Execute/Operators/Takes.antt =====
-- How many operands the templates of lib/fizzy/execute.cpp take from the stack.
use fizzy.Common.{
  ℕ, suc, ◌≡◌, refl, List, ◌∷◌, Option, none, some, ◌⊎◌, inl, inr, Run, done, trapped, ◌then◌,
  or_trap, Bool, true, false, ◌==◌, ℤ, signed,
}
use fizzy.Stack.{OperandStack, top, set_top, pop}
use fizzy.Stack.Refines.{Operands, Represents, top-Represents, set_top-Represents, pop-Represents}
use fizzy.Execute.Operators.{
  value_as, bool_value, unary_op, binary_op, comparison_op, division_op, trunc, convert,
  reinterpret,
}
use fizzy.Execute.Floats.{Format, Boundaries, trunc_to}
use fizzy.Execute.Numeric.Compare.{eqz}

abbrev pub with_room : List ℕ → List ℕ → ℕ → Operands
with_room locals items room = record { locals = locals; items = items; room = room }

-- A run that traps or leaves one operand more than `items`, with the locals as they were.
abbrev pub Leaves : Run OperandStack → List ℕ → List ℕ → ℕ → Type 0
Leaves r locals items room =
    (r ≡ trapped)
    ⊎ ((v : ℕ) × (s' : OperandStack) × (r ≡ done s')
        × Represents s' (with_room locals (v ∷ items) room))

-- The handler takes the one operand at the top.
abbrev pub TakesOne : (OperandStack → Run OperandStack) → Type 0
TakesOne f =
    (s : OperandStack) (locals items : List ℕ) (a room : ℕ)
    → Represents s (with_room locals (a ∷ items) room)
    → Leaves (f s) locals items room

-- The handler takes the two operands at the top.
abbrev pub TakesTwo : (OperandStack → Run OperandStack) → Type 0
TakesTwo f =
    (s : OperandStack) (locals items : List ℕ) (b a room : ℕ)
    → Represents s (with_room locals (b ∷ a ∷ items) room)
    → Leaves (f s) locals items (suc room)

-- The shape of the handlers of one operand; `none` is a trap.
abbrev pub on_one : (ℕ → Option ℕ) → OperandStack → Run OperandStack
on_one f s = top s then λ a. or_trap (f a) then λ v. set_top v s

abbrev pub on_two : (ℕ → ℕ → Option ℕ) → OperandStack → Run OperandStack
on_two f s = pop s then λ (b, rest). top rest then λ a. or_trap (f a b) then λ v. set_top v rest

set-Leaves :
    (o : Option ℕ) (s : OperandStack) (locals items : List ℕ) (a room : ℕ)
    → Represents s (with_room locals (a ∷ items) room)
    → Leaves (or_trap o then λ v. set_top v s) locals items room
set-Leaves none s locals items a room r = inl refl
set-Leaves (some v) s locals items a room r =
    let (s', q, r') = set_top-Represents s locals items a v room r in inr (v, s', q, r')

pub on_one-Takes : (f : ℕ → Option ℕ) → TakesOne (on_one f)
on_one-Takes f s locals items a room r =
    rw (top-Represents s locals items a room r) (set-Leaves (f a) s locals items a room r)

pub on_two-Takes : (f : ℕ → ℕ → Option ℕ) → TakesTwo (on_two f)
on_two-Takes f s locals items b a room r =
    let (rest, p, r') = pop-Represents s locals (a ∷ items) b room r in
    rw (p, top-Represents rest locals items a (suc room) r')
      (set-Leaves (f a b) rest locals items a (suc room) r')

pub unary_op-Takes : (w : ℕ) (op : ℕ → ℕ) → TakesOne (unary_op w op)
unfolding unary_op
unary_op-Takes w op = on_one-Takes (λ a. some (op (value_as w a)))

pub binary_op-Takes : (w : ℕ) (op : ℕ → ℕ → ℕ) → TakesTwo (binary_op w op)
unfolding binary_op
binary_op-Takes w op = on_two-Takes (λ a b. some (op (value_as w a) (value_as w b)))

pub comparison_op-Takes : (w : ℕ) (op : ℕ → ℕ → Bool) → TakesTwo (comparison_op w op)
unfolding comparison_op
comparison_op-Takes w op =
    on_two-Takes (λ a b. some (bool_value (op (value_as w a) (value_as w b))))

pub division_op-Takes : (w : ℕ) (op : ℕ → ℕ → Option ℕ) → TakesTwo (division_op w op)
unfolding division_op
division_op-Takes w op = on_two-Takes (λ a b. op (value_as w a) (value_as w b))

pub trunc-Takes : (f : Format) (b : Boundaries) (w : ℕ) → TakesOne (trunc f b w)
unfolding trunc
trunc-Takes f b w = on_one-Takes (λ a. trunc_to f b w (value_as f.width a))

pub convert-Takes :
    (w : ℕ) (from_int : ℤ → ℕ) (is_signed : Bool) → TakesOne (convert w from_int is_signed)
unfolding convert
convert-Takes w from_int is_signed = on_one-Takes (λ a.
    some
      (from_int (elim is_signed [ true ↦ signed w (value_as w a) | false ↦ ℤ.pos (value_as w a) ])))

pub reinterpret-Takes : (w : ℕ) → TakesOne (reinterpret w)
unfolding reinterpret
reinterpret-Takes w = on_one-Takes (λ a. some (value_as w a))

pub eqz-Takes : (w : ℕ) → TakesOne (eqz w)
unfolding eqz
eqz-Takes w = on_one-Takes (λ a. some (bool_value (value_as w a == 0)))
