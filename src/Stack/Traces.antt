-- ===== src/Stack/Traces.antt =====
-- Any sequence of operations on `OperandStack` of lib/fizzy/stack.hpp gives what the same sequence
-- gives on a list of locals and a list of operands.
use fizzy.Common.{ℕ, ◌≡◌, refl, List, [], ◌∷◌, subst, Option, none, some, done}
use fizzy.Stack.{OperandStack}
use fizzy.Stack.Refines.{Operands, Represents}
use fizzy.Stack.Meaning.{Operation, operate, meaning, operate_all, meaning_then, meaning_all}
use fizzy.Stack.Implements.{Operation-Implements}

-- The rest of a sequence.
abbrev Goes : List Operation → OperandStack → List ℕ → Operands → Type 0
Goes os s vs a' = (s' : OperandStack) × (operate_all os s ≡ done (vs, s')) × Represents s' a'

after_first :
    (o : Operation) (os : List Operation) (s : OperandStack) (a' : Operands) (v : ℕ)
    (m : Option (List ℕ × Operands)) (vs : List ℕ) (s₁ : OperandStack)
    → operate o s ≡ done (v, s₁)
    → ((ws : List ℕ) (b : Operands) → m ≡ some (ws, b) → Goes os s₁ ws b)
    → meaning_then m v ≡ some (vs, a')
    → Goes (o ∷ os) s vs a'
unfolding operate_all
after_first o os s a' v none vs s₁ q ih e = cc (e)
after_first o os s a' v (some (ws, b)) vs s₁ q ih e =
    let (s', q', r') = ih ws b refl in
    let p : ◌≡◌ {A = List ℕ × Operands} (v ∷ ws, b) (vs, a') = cc (e) in
    subst (λ (z : List ℕ × Operands). Goes (o ∷ os) s z.0 z.1) p (s', rw (q, q') refl, r')

-- Any sequence of operations on OperandStack (push, pop, top, assignment to the top, drop, reads
-- and writes of locals) that has a meaning on a list of locals and a list of operands with room
-- for some more does on the storage and its two pointers what it means, gives the same values,
-- and leaves a storage that represents the resulting lists.
pub operate_all-meaning_all :
    (os : List Operation) (s : OperandStack) (a a' : Operands) (vs : List ℕ)
    → Represents s a
    → meaning_all os a ≡ some (vs, a')
    → (s' : OperandStack) × (operate_all os s ≡ done (vs, s')) × Represents s' a'
unfolding operate_all meaning_all
operate_all-meaning_all [] s a a' vs r e =
    let p : ◌≡◌ {A = List ℕ × Operands} ([], a) (vs, a') = cc (e) in
    subst (λ (z : List ℕ × Operands). Goes [] s z.0 z.1) p (s, refl, r)
operate_all-meaning_all (o ∷ os) s a a' vs r e =
    opened (meaning o a) refl (λ s₁ a₁ b ws. operate_all-meaning_all os s₁ a₁ b ws) e
  where
    opened :
        (m : Option (ℕ × Operands))
        → meaning o a ≡ m
        → ((s₁ : OperandStack) (a₁ b : Operands) (ws : List ℕ)
            → Represents s₁ a₁
            → meaning_all os a₁ ≡ some (ws, b)
            → Goes os s₁ ws b)
        → elim m [ none ↦ none | some (v, a₁) ↦ meaning_then (meaning_all os a₁) v ] ≡ some (vs, a')
        → Goes (o ∷ os) s vs a'
    opened none q ih e = cc (e)
    opened (some (v, a₁)) q ih e =
        let (s₁, p, r₁) = Operation-Implements o s a a₁ v r q in
        after_first o os s a' v (meaning_all os a₁) vs s₁ p (λ ws b. ih s₁ a₁ b ws r₁) e
