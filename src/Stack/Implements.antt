-- ===== src/Stack/Implements.antt =====
-- Each operation on `OperandStack` of lib/fizzy/stack.hpp does on the storage what it does on a list of
-- locals and a list of operands.
use fizzy.Common.{
  ℕ, zero, suc, ◌+◌, ◌-◌, ◌≤◌, ◌≡◌, refl, arith, List, [], ◌∷◌, length, get_elem?, drop, ltb, leb,
  ltb→lt, ltb→le, leb→le, subst, Bool-cases, inl, inr, none, some, done,
}
use fizzy.Stack.{OperandStack, drop_items}
use fizzy.Stack.Refines.{
  Operands, Represents, size-Represents, popped-Represents, push-Represents, pop-Represents,
  top-Represents, set_top-Represents, get_local-Represents, set_local-Represents,
}
use fizzy.Stack.Meaning.{
  Operation, pushes, sets_top, drops, gets_local, sets_local, pops, gets_top, operate, push_item,
  pop_item, set_top_item, top_of, with_value, meaning,
}

-- The operation does on the storage what it means.
abbrev pub Implements : Operation → OperandStack → ℕ → Operands → Type 0
Implements o s v a' = (s' : OperandStack) × (operate o s ≡ done (v, s')) × Represents s' a'

get_elem?-beyond : (xs : List ℕ) (i : ℕ) → length xs ≤ i → get_elem? xs i ≡ none
get_elem?-beyond [] i h = refl
get_elem?-beyond (x ∷ xs) zero h = absurd (omega arith)
get_elem?-beyond (x ∷ xs) (suc i) h = get_elem?-beyond xs i (omega arith)

pub dropped-Represents :
    (n : ℕ) (s : OperandStack) (locals items : List ℕ) (room : ℕ)
    → n ≤ length items
    → Represents s (record { locals = locals; items = items; room = room })
    → Represents
        (record s { top_index = s.top_index - n })
        (record { locals = locals; items = drop n items; room = room + n })
dropped-Represents zero s locals items room h r = record {
  spare = r.spare;
  layout = r.layout;
  bottom_at = r.bottom_at;
  some_locals = r.some_locals;
  top_at = omega (arith, r.top_at);
  spare_room = omega (arith, r.spare_room);
}
dropped-Represents (suc n) s locals [] room h r = absurd (omega arith)
dropped-Represents (suc n) s locals (v ∷ items) room h r =
    let next =
      dropped-Represents n (record s { top_index = s.top_index - 1 }) locals items (suc room)
        (omega arith) (popped-Represents s locals items v room r) in
    record {
      spare = next.spare;
      layout = next.layout;
      bottom_at = next.bottom_at;
      some_locals = next.some_locals;
      top_at = omega (arith, next.top_at);
      spare_room = omega (arith, next.spare_room);
    }

same_meaning :
    (o : Operation) (s : OperandStack) (x y : ℕ × Operands)
    → some x ≡ some y
    → Implements o s x.0 x.1
    → Implements o s y.0 y.1
same_meaning o s x y e m =
    let p : x ≡ y = cc (e) in subst (λ (z : ℕ × Operands). Implements o s z.0 z.1) p m

module _ (s : OperandStack) (locals : List ℕ) (room v : ℕ) (a' : Operands) where
  pops-Implements :
      (items : List ℕ)
      → Represents s (record { locals = locals; items = items; room = room })
      → pop_item locals items room ≡ some (v, a')
      → Implements pops s v a'
  pops-Implements [] r e = cc (e)
  pops-Implements (x ∷ items) r e =
      same_meaning pops s _ _ e (pop-Represents s locals items x room r)

  gets_top-Implements :
      (items : List ℕ)
      → Represents s (record { locals = locals; items = items; room = room })
      → top_of (record { locals = locals; items = items; room = room }) ≡ some (v, a')
      → Implements gets_top s v a'
  gets_top-Implements [] r e = cc (e)
  gets_top-Implements (x ∷ items) r e =
      same_meaning gets_top s _ _ e (s, rw (top-Represents s locals items x room r) refl, r)

  sets_top-Implements :
      (w : ℕ) (items : List ℕ)
      → Represents s (record { locals = locals; items = items; room = room })
      → set_top_item w locals items room ≡ some (v, a')
      → Implements (sets_top w) s v a'
  sets_top-Implements w [] r e = cc (e)
  sets_top-Implements w (x ∷ items) r e =
      let (s', q, r') = set_top-Represents s locals items x w room r in
      same_meaning (sets_top w) s _ _ e (s', rw q refl, r')

  gets_local-Implements :
      (i : ℕ) (items : List ℕ)
      → Represents s (record { locals = locals; items = items; room = room })
      → with_value (record { locals = locals; items = items; room = room }) (get_elem? locals i)
        ≡ some (v, a')
      → Implements (gets_local i) s v a'
  gets_local-Implements i items r e = elim (Bool-cases (ltb i (length locals))) [
    | inl small ↦
        let (x, found, q) = get_local-Represents s locals items i room r (ltb→lt i _ small) in
        same_meaning (gets_local i) s _ _ (rw found at e) (s, rw q refl, r)
    | inr large ↦ cc (rw (get_elem?-beyond locals i (ltb→le i _ large)) at e)
  ]

  sets_local-Implements :
      (i w : ℕ) (items : List ℕ)
      → Represents s (record { locals = locals; items = items; room = room })
      → meaning (sets_local i w) (record { locals = locals; items = items; room = room })
        ≡ some (v, a')
      → Implements (sets_local i w) s v a'
  sets_local-Implements i w items r e = elim (Bool-cases (ltb i (length locals))) [
    | inl small ↦
        let (s', q, r') = set_local-Represents s locals items i w room r (ltb→lt i _ small) in
        same_meaning (sets_local i w) s _ _ (rw small at e) (s', rw q refl, r')
    | inr large ↦ cc (rw large at e)
  ]

  drops-Implements :
      (n : ℕ) (items : List ℕ)
      → Represents s (record { locals = locals; items = items; room = room })
      → meaning (drops n) (record { locals = locals; items = items; room = room }) ≡ some (v, a')
      → Implements (drops n) s v a'
  unfolding drop_items
  drops-Implements n items r e = elim (Bool-cases (leb n (length items))) [
    | inl enough ↦ same_meaning (drops n) s _ _ (rw enough at e) (
      record s { top_index = s.top_index - n },
      rw (size-Represents r, enough) refl,
      dropped-Represents n s locals items room (leb→le n _ enough) r,
    )
    | inr short ↦ cc (rw short at e)
  ]

pub pushes-Implements :
    (s : OperandStack) (locals items : List ℕ) (room w v : ℕ) (a' : Operands)
    → Represents s (record { locals = locals; items = items; room = room })
    → push_item w locals items room ≡ some (v, a')
    → Implements (pushes w) s v a'
pushes-Implements s locals items zero w v a' r e = cc (e)
pushes-Implements s locals items (suc room) w v a' r e =
    let (s', q, r') = push-Represents s locals items w room r in
    same_meaning (pushes w) s _ _ e (s', rw q refl, r')

pub Operation-Implements :
    (o : Operation) (s : OperandStack) (a a' : Operands) (v : ℕ)
    → Represents s a
    → meaning o a ≡ some (v, a')
    → Implements o s v a'
Operation-Implements pops s a a' v r e = pops-Implements s a.locals a.room v a' a.items r e
Operation-Implements gets_top s a a' v r e = gets_top-Implements s a.locals a.room v a' a.items r e
Operation-Implements (pushes w) s a a' v r e =
    pushes-Implements s a.locals a.items a.room w v a' r e
Operation-Implements (sets_top w) s a a' v r e =
    sets_top-Implements s a.locals a.room v a' w a.items r e
Operation-Implements (drops n) s a a' v r e = drops-Implements s a.locals a.room v a' n a.items r e
Operation-Implements (gets_local i) s a a' v r e =
    gets_local-Implements s a.locals a.room v a' i a.items r e
Operation-Implements (sets_local i w) s a a' v r e =
    sets_local-Implements s a.locals a.room v a' i w a.items r e
