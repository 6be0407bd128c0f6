-- ===== src/Execute/State/Branch.antt =====
-- What `branch` and the end of `invoke_function` of lib/fizzy/execute.cpp do to the operands.
use fizzy.Common.{
  ℕ, suc, ◌+◌, ◌-◌, ◌%◌, ◌^◌, ◌≤◌, ◌<◌, ◌≡◌, refl, ap, ◌∙◌, subst, arith, List, [], ◌∷◌, ◌++◌,
  length, length-append, drop-append_of_length, ltb, leb, ◌==◌, true, Option, none, some, done,
}
use fizzy.Types.{Code, FuncType}
use fizzy.Stack.{OperandStack, size, drop_items}
use fizzy.Stack.Refines.{
  Represents, size-Represents, top-Represents, set_top-Represents, push-Represents,
}
use fizzy.Stack.Implements.{dropped-Represents}
use fizzy.Execute.Operators.Takes.{with_room}
use fizzy.Execute.State.{read, branch, push_returned}

drop_items-Represents :
    (s : OperandStack) (locals dropped items : List ℕ) (n room : ℕ)
    → length dropped ≡ n
    → Represents s (with_room locals (dropped ++ items) room)
    → (s' : OperandStack) × (drop_items n s ≡ done s')
      × Represents s' (with_room locals items (room + n))
unfolding drop_items
drop_items-Represents s locals dropped items n room e r =
    let high : size s ≡ length (dropped ++ items) = size-Represents r in
    let fits : leb n (size s) ≡ true = ground (arith, high, e, length-append dropped items) in
    (
      record s { top_index = s.top_index - n },
      rw fits refl,
      subst
          (λ xs.
            Represents (record s { top_index = s.top_index - n }) (with_room locals xs (room + n)))
          (drop-append_of_length dropped items e)
          (dropped-Represents n s locals (dropped ++ items) room
            (omega (arith, e, length-append dropped items)) r),
    )

-- The item that stands above `items` once the others are dropped.
last_dropped :
    (x : ℕ) (dropped items : List ℕ)
    → (above : List ℕ) × (y : ℕ) × (length above ≡ length dropped)
      × (x ∷ (dropped ++ items) ≡ above ++ (y ∷ items))
last_dropped x [] items = ([], x, refl, refl)
last_dropped x (d ∷ dropped) items =
    let (above, y, e, p) = last_dropped d dropped items in
    (x ∷ above, y, ap suc e, ap (λ xs. x ∷ xs) p)

module _ (code : Code) (pc code_offset pc₁ pc₂ stack_drop : ℕ) (s : OperandStack)
    (locals dropped items : List ℕ) (room : ℕ) where
  -- What stands in the code, and how many operands the branch drops.
  pub record IsBranch : Type 0 where
    pub target : read 4 code.instructions pc ≡ done (code_offset, pc₁)
    pub height : read 4 code.instructions pc₁ ≡ done (stack_drop, pc₂)
    pub drop_bound : stack_drop < 2 ^ 31
    pub dropped_number : length dropped ≡ stack_drop

  -- Where the code has at the position an offset and behind it a number of operands to drop,
  -- which is below 2 ^ 31, a branch of an arity of at most one goes to the offset, keeps as many
  -- operands at the top as its arity, drops that number of operands under them, and leaves the
  -- operands below and the locals as they were.
  pub branch-Represents :
      (results : List ℕ)
      → length results ≤ 1
      → IsBranch
      → Represents s (with_room locals (results ++ (dropped ++ items)) room)
      → (s' : OperandStack) × (branch code pc s (length results) ≡ done (code_offset, s'))
        × Represents s' (with_room locals (results ++ items) (room + stack_drop))
  unfolding branch
  branch-Represents [] h b r =
      let (s', q, r') =
        drop_items-Represents s locals dropped items stack_drop room b.dropped_number r in
      let high : size s ≡ length (dropped ++ items) = size-Represents r in
      let small : ltb stack_drop (2 ^ 31) ≡ true = ground (arith, b.drop_bound) in
      let fits : leb ((stack_drop + 0) % 2 ^ 32) (size s) ≡ true =
        ground (arith, high, b.dropped_number, b.drop_bound, length-append dropped items) in
      (s', rw (b.target, b.height, small, fits, q) refl, r')
  branch-Represents (x ∷ []) h b r =
      let (above, y, e, p) = last_dropped x dropped items in
      let r' = subst (λ xs. Represents s (with_room locals xs room)) p r in
      let (s₁, q₁, r₁) =
        drop_items-Represents s locals above (y ∷ items) stack_drop room (e ∙ b.dropped_number)
          r' in
      let (s₂, q₂, r₂) = set_top-Represents s₁ locals items y x (room + stack_drop) r₁ in
      let high : size s ≡ suc (length (dropped ++ items)) = size-Represents r in
      let small : ltb stack_drop (2 ^ 31) ≡ true = ground (arith, b.drop_bound) in
      let fits : leb ((stack_drop + 1) % 2 ^ 32) (size s) ≡ true =
        ground (arith, high, b.dropped_number, b.drop_bound, length-append dropped items) in
      (
        s₂,
        rw
            (
              b.target,
              b.height,
              small,
              fits,
              top-Represents s locals (dropped ++ items) x room r,
              q₁,
              q₂,
            )
            refl,
        r₂,
      )
  branch-Represents (x ∷ y ∷ results) h b r = absurd (omega (arith, h))

-- The result of a function of the type, where it has one.
abbrev pub results_of : Option ℕ → List ℕ
results_of none = []
results_of (some v) = v ∷ []

-- After a call that returned as many values as the type of the function has results, at most one,
-- the arguments are taken from the stack and the value is pushed, and the operands below and the
-- locals are as they were, where the stack has room for one item above them.
pub push_returned-Represents :
    (t : FuncType) (s : OperandStack) (locals args items : List ℕ) (room : ℕ) (result : Option ℕ)
    → length args ≡ length t.inputs
    → length (results_of result) ≡ length t.outputs
    → 0 < room + length t.inputs
    → Represents s (with_room locals (args ++ items) room)
    → (s' : OperandStack) × (room' : ℕ) × (push_returned t s result ≡ done s')
      × (room' + length t.outputs ≡ room + length t.inputs)
      × Represents s' (with_room locals (results_of result ++ items) room')
unfolding push_returned
push_returned-Represents t s locals args items room none e f h r =
    let (s', q, r') = drop_items-Represents s locals args items (length t.inputs) room e r in
    let few : leb (length t.outputs) 1 ≡ true = ground (arith, f) in
    let void : (length t.outputs == 0) ≡ true = ground (arith, f) in
    (s', room + length t.inputs, rw (q, few, void) refl, omega (arith, f), r')
push_returned-Represents t s locals args items room (some v) e f h r =
    let (s', q, r') = drop_items-Represents s locals args items (length t.inputs) room e r in
    let few : leb (length t.outputs) 1 ≡ true = ground (arith, f) in
    let single : (length t.outputs == 1) ≡ true = ground (arith, f) in
    let less = room + length t.inputs - 1 in
    let more : room + length t.inputs ≡ suc less = omega (arith, h) in
    let (s'', q', r'') =
      push-Represents s' locals items v less
        (subst (λ k. Represents s' (with_room locals items k)) more r') in
    (s'', less, rw (q, few, single) q', omega (arith, f, h), r'')
