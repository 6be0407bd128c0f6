-- ===== src/Stack/Meaning.antt =====
-- The operations on `OperandStack` of lib/fizzy/stack.hpp, and what they mean on a list of locals and a
-- list of operands.
use fizzy.Common.{
  ℕ, zero, suc, ◌+◌, List, [], ◌∷◌, length, get_elem?, set, drop, ltb, leb, Option, none, some,
  if◌then◌else◌, Run, done, ◌then◌,
}
use fizzy.Stack.{OperandStack, get_local, set_local, top, set_top, push, pop, drop_items}
use fizzy.Stack.Refines.{Operands}

-- The operations of the class.
pub data Operation : Type 0 where
  pushes sets_top drops gets_local : ℕ → Operation
  sets_local : ℕ → ℕ → Operation
  pops gets_top : Operation

abbrev pub no_value : Run OperandStack → Run (ℕ × OperandStack)
no_value r = r then λ s. done (0, s)

-- An operation, with the value that it gives, or 0.
abbrev pub operate : Operation → OperandStack → Run (ℕ × OperandStack)
operate (pushes v) s = no_value (push v s)
operate (sets_top v) s = no_value (set_top v s)
operate (drops n) s = no_value (drop_items n s)
operate (gets_local i) s = get_local i s then λ v. done (v, s)
operate (sets_local i v) s = no_value (set_local i v s)
operate pops s = pop s
operate gets_top s = top s then λ v. done (v, s)

abbrev pub push_item : ℕ → List ℕ → List ℕ → ℕ → Option (ℕ × Operands)
push_item v locals items zero = none
push_item v locals items (suc room) =
    some (0, record { locals = locals; items = v ∷ items; room = room })

abbrev pub pop_item : List ℕ → List ℕ → ℕ → Option (ℕ × Operands)
pop_item locals [] room = none
pop_item locals (v ∷ items) room =
    some (v, record { locals = locals; items = items; room = suc room })

abbrev pub set_top_item : ℕ → List ℕ → List ℕ → ℕ → Option (ℕ × Operands)
set_top_item w locals [] room = none
set_top_item w locals (v ∷ items) room =
    some (0, record { locals = locals; items = w ∷ items; room = room })

abbrev pub top_of : Operands → Option (ℕ × Operands)
top_of a = elim a.items [ [] ↦ none | v ∷ items ↦ some (v, a) ]

abbrev pub with_value : Operands → Option ℕ → Option (ℕ × Operands)
with_value a none = none
with_value a (some v) = some (v, a)

-- What an operation means; `none` where the caller may not use it.
abbrev pub meaning : Operation → Operands → Option (ℕ × Operands)
meaning (pushes v) a = push_item v a.locals a.items a.room
meaning (sets_top v) a = set_top_item v a.locals a.items a.room
meaning (drops n) a =
    if leb n (length a.items)
    then some (0, record a { items = drop n a.items; room = a.room + n })
    else none
meaning (gets_local i) a = with_value a (get_elem? a.locals i)
meaning (sets_local i v) a =
    if ltb i (length a.locals) then some (0, record a { locals = set a.locals i v }) else none
meaning pops a = pop_item a.locals a.items a.room
meaning gets_top a = top_of a

-- The values that a sequence of operations gives.
unfoldable pub operate_all : List Operation → OperandStack → Run (List ℕ × OperandStack)
operate_all [] s = done ([], s)
operate_all (o ∷ os) s =
    operate o s then λ (v, s'). operate_all os s' then λ (vs, s''). done (v ∷ vs, s'')

abbrev pub meaning_then : Option (List ℕ × Operands) → ℕ → Option (List ℕ × Operands)
meaning_then none v = none
meaning_then (some (vs, a)) v = some (v ∷ vs, a)

unfoldable pub meaning_all : List Operation → Operands → Option (List ℕ × Operands)
meaning_all [] a = some ([], a)
meaning_all (o ∷ os) a = elim (meaning o a) [
  | none ↦ none
  | some (v, a') ↦ meaning_then (meaning_all os a') v
]
