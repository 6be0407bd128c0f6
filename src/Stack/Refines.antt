-- ===== src/Stack/Refines.antt =====
-- `OperandStack` of lib/fizzy/stack.hpp implements a list of locals and a list of operands with room
-- for some more.
use fizzy.Common.{
  ℕ, suc, ◌+◌, ◌-◌, ◌<◌, ◌≡◌, refl, sym, ap, ◌∙◌, arith, List, [], ◌∷◌, ◌++◌, length, length-append,
  get_elem?, get_elem?-lt, set, ltb, lt→ltb, ◌==◌, true, false, some, done,
}
use fizzy.Stack.{OperandStack, size, get_local, write, set_local, top, set_top, push, pop}
use fizzy.Stack.Items.{
  get_elem?-append_here, set-append_here, get_elem?-append_front, set-append_front, length-set,
}
use mathlib.Core.List.{reverse, reverse-cons, append_assoc}

-- The abstract stack: the locals, the operands with the top first, and how many more fit.
pub record Operands : Type 0 where
  pub locals : List ℕ
  pub items : List ℕ
  pub room : ℕ

pub record Represents (s : OperandStack) (a : Operands) : Type 0 where
  pub spare : List ℕ
  pub layout : s.storage ≡ (a.locals ++ reverse a.items) ++ spare
  pub bottom_at : s.bottom ≡ length a.locals
  pub some_locals : 0 < length a.locals
  pub top_at : s.top_index + 1 ≡ length a.locals + length a.items
  pub spare_room : length spare ≡ a.room

length-reverse : (xs : List ℕ) → length (reverse xs) ≡ length xs
length-reverse [] = refl
length-reverse (x ∷ xs) =
    rw (reverse-cons x xs) (omega (arith, length-append (reverse xs) (x ∷ []), length-reverse xs))

below_spare :
    (locals items : List ℕ) → length (locals ++ reverse items) ≡ length locals + length items
below_spare locals items = omega (arith, length-append locals (reverse items), length-reverse items)

-- An operand more moves the border of the spare items by one.
move_border :
    (locals items spare : List ℕ) (v : ℕ)
    → (locals ++ reverse items) ++ (v ∷ spare) ≡ (locals ++ reverse (v ∷ items)) ++ spare
move_border locals items spare v =
    rw (reverse-cons v items, ← append_assoc locals (reverse items) (v ∷ []))
      (sym (append_assoc (locals ++ reverse items) (v ∷ []) spare))

pub size-Represents : {s : OperandStack} {a : Operands} → Represents s a → size s ≡ length a.items
unfolding size
size-Represents r = omega (arith, r.top_at, r.bottom_at)

module _ (s : OperandStack) (locals items : List ℕ) where
  abbrev with_room : ℕ → List ℕ → Operands
  with_room room xs = record { locals = locals; items = xs; room = room }

  pub push-Represents :
      (v room : ℕ)
      → Represents s (with_room (suc room) items)
      → (s' : OperandStack) × (push v s ≡ done s') × Represents s' (with_room room (v ∷ items))
  unfolding push
  push-Represents v room r = opened r.spare r.layout r.spare_room
    where
      opened :
          (spare : List ℕ)
          → s.storage ≡ (locals ++ reverse items) ++ spare
          → length spare ≡ suc room
          → (s' : OperandStack) × (write
                (s.top_index + 1)
                v
                (record s { top_index = s.top_index + 1 })
              ≡ done s')
            × Represents s' (with_room room (v ∷ items))
      opened [] e n = absurd (omega (arith, n))
      opened (x ∷ spare) e n =
          let place : s.top_index + 1 ≡ length (locals ++ reverse items) =
            omega (arith, r.top_at, below_spare locals items) in
          let long : length s.storage ≡ length (locals ++ reverse items) + length (x ∷ spare) =
            ap length e ∙ length-append (locals ++ reverse items) (x ∷ spare) in
          let fits : ltb (s.top_index + 1) (length s.storage) ≡ true =
            lt→ltb _ _ (omega (arith, place, long)) in
          let written : set s.storage (s.top_index + 1) v
              ≡ (locals ++ reverse items) ++ (v ∷ spare) =
            rw (e, place) (set-append_here (locals ++ reverse items) spare x v) in
          (
            record s { storage = set s.storage (s.top_index + 1) v; top_index = s.top_index + 1 },
            rw fits refl,
            record {
              spare = spare;
              layout = written ∙ move_border locals items spare v;
              bottom_at = r.bottom_at;
              some_locals = r.some_locals;
              top_at = omega (arith, r.top_at);
              spare_room = omega (arith, n);
            },
          )

  -- What the top item is and where it stands.
  top_item :
      (v room : ℕ)
      → Represents s (with_room room (v ∷ items))
      → (spare : List ℕ) × (s.storage ≡ (locals ++ reverse items) ++ (v ∷ spare))
        × (s.top_index ≡ length (locals ++ reverse items))
        × ((size s == 0) ≡ false)
        × (length spare ≡ room)
  top_item v room r = (
    r.spare,
    r.layout ∙ sym (move_border locals items r.spare v),
    omega (arith, r.top_at, below_spare locals items),
    ground (arith, size-Represents r),
    r.spare_room,
  )

  pub top-Represents : (v room : ℕ) → Represents s (with_room room (v ∷ items)) → top s ≡ done v
  unfolding top
  top-Represents v room r =
      let (spare, e, place, some_items, n) = top_item v room r in
      rw (some_items, e, place, get_elem?-append_here (locals ++ reverse items) spare v) refl

  pub popped-Represents :
      (v room : ℕ)
      → Represents s (with_room room (v ∷ items))
      → Represents (record s { top_index = s.top_index - 1 }) (with_room (suc room) items)
  popped-Represents v room r =
      let (spare, e, place, some_items, n) = top_item v room r in
      record {
        spare = v ∷ spare;
        layout = e;
        bottom_at = r.bottom_at;
        some_locals = r.some_locals;
        top_at = omega (arith, place, r.some_locals, below_spare locals items);
        spare_room = omega (arith, n);
      }

  pub pop-Represents :
      (v room : ℕ)
      → Represents s (with_room room (v ∷ items))
      → (s' : OperandStack) × (pop s ≡ done (v, s')) × Represents s' (with_room (suc room) items)
  unfolding pop
  pop-Represents v room r = (
    record s { top_index = s.top_index - 1 },
    rw (top-Represents v room r) refl,
    popped-Represents v room r,
  )

  pub set_top-Represents :
      (v w room : ℕ)
      → Represents s (with_room room (v ∷ items))
      → (s' : OperandStack) × (set_top w s ≡ done s') × Represents s' (with_room room (w ∷ items))
  unfolding set_top
  set_top-Represents v w room r =
      let (spare, e, place, some_items, n) = top_item v room r in
      let long : length s.storage ≡ length (locals ++ reverse items) + length (v ∷ spare) =
        ap length e ∙ length-append (locals ++ reverse items) (v ∷ spare) in
      let fits : ltb s.top_index (length s.storage) ≡ true =
        lt→ltb _ _ (omega (arith, place, long)) in
      let written : set s.storage s.top_index w ≡ (locals ++ reverse items) ++ (w ∷ spare) =
        rw (e, place) (set-append_here (locals ++ reverse items) spare v w) in
      (
        record s { storage = set s.storage s.top_index w },
        rw (some_items, fits) refl,
        record {
          spare = spare;
          layout = written ∙ move_border locals items spare w;
          bottom_at = r.bottom_at;
          some_locals = r.some_locals;
          top_at = r.top_at;
          spare_room = n;
        },
      )

  pub get_local-Represents :
      (i room : ℕ)
      → Represents s (with_room room items)
      → i < length locals
      → (v : ℕ) × (get_elem? locals i ≡ some v) × (get_local i s ≡ done v)
  unfolding get_local
  get_local-Represents i room r h =
      let (v, q) = get_elem?-lt locals i h in
      let inside : ltb i s.bottom ≡ true = lt→ltb _ _ (omega (arith, h, r.bottom_at)) in
      let found : get_elem? s.storage i ≡ some v =
        rw (r.layout, append_assoc locals (reverse items) r.spare)
          (get_elem?-append_front locals (reverse items ++ r.spare) i h ∙ q) in
      (v, q, rw (inside, found) refl)

  pub set_local-Represents :
      (i v room : ℕ)
      → Represents s (with_room room items)
      → i < length locals
      → (s' : OperandStack) × (set_local i v s ≡ done s')
        × Represents s' (record { locals = set locals i v; items = items; room = room })
  unfolding set_local
  set_local-Represents i v room r h =
      let inside : ltb i s.bottom ≡ true = lt→ltb _ _ (omega (arith, h, r.bottom_at)) in
      let joined : s.storage ≡ locals ++ (reverse items ++ r.spare) =
        r.layout ∙ append_assoc locals (reverse items) r.spare in
      let long : length s.storage ≡ length locals + length (reverse items ++ r.spare) =
        ap length joined ∙ length-append locals (reverse items ++ r.spare) in
      let fits : ltb i (length s.storage) ≡ true = lt→ltb _ _ (omega (arith, h, long)) in
      let written : set s.storage i v ≡ (set locals i v ++ reverse items) ++ r.spare =
        rw (joined, append_assoc (set locals i v) (reverse items) r.spare)
          (set-append_front locals (reverse items ++ r.spare) i v h) in
      (
        record s { storage = set s.storage i v },
        rw (inside, fits) refl,
        record {
          spare = r.spare;
          layout = written;
          bottom_at = omega (arith, r.bottom_at, length-set locals i v);
          some_locals = omega (arith, r.some_locals, length-set locals i v);
          top_at = omega (arith, r.top_at, length-set locals i v);
          spare_room = r.spare_room;
        },
      )
