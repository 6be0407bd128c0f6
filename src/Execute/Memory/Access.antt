-- ===== src/Execute/Memory/Access.antt =====
-- The bounds of `load_from_memory`, `store_into_memory` and `grow_memory` of lib/fizzy/execute.cpp.
use fizzy.Common.{
  subst, ℕ, zero, suc, ◌+◌, ◌*◌, ◌%◌, ◌^◌, ◌≤◌, ◌<◌, ◌≡◌, refl, ◌∙◌, arith, List, ◌∷◌, length, ltb,
  ltb→lt, ltb→le, Bool-cases, true, false, ◌⊎◌, inl, inr, done, trapped,
}
use fizzy.Common.Bits.{two-pow-add}
use fizzy.Stack.{OperandStack}
use fizzy.Stack.Refines.{Represents, top-Represents, set_top-Represents, pop-Represents}
use fizzy.Execute.Operators.{value_as}
use fizzy.Execute.Operators.Takes.{with_room}
use fizzy.Execute.Memory.{load, store, out_of_bounds, place_of, load_from_memory, store_into_memory}
use fizzy.Execute.Memory.RoundTrip.{length-store, load-store_here, power_positive}
use native.Mathlib.Nat.{mod-eq_of_lt, mod-lt, pow-suc}

-- The numbers of an access: a memory of at most 4 GiB, a 32-bit offset, at most 8 bytes.
pub record IsAccess (memory : List ℕ) (size offset : ℕ) : Type 0 where
  pub memory_bound : length memory ≤ 2 ^ 32
  pub offset_bound : offset < 2 ^ 32
  pub some_bytes : 0 < size
  pub few_bytes : size ≤ 8

-- The sum of the bounds test fits 64 bits.
no_wrap :
    (memory : List ℕ) (size offset a : ℕ)
    → IsAccess memory size offset
    → a < 2 ^ 32
    → (a + offset + size) % 2 ^ 64 ≡ a + offset + size
no_wrap memory size offset a h b = omega (arith, h.offset_bound, h.few_bytes)

-- Within the bounds the place fits 32 bits.
place_inside :
    (memory : List ℕ) (size offset a : ℕ)
    → IsAccess memory size offset
    → a + offset + size ≤ length memory
    → place_of a offset ≡ a + offset
place_inside memory size offset a h b = omega (arith, h.memory_bound, h.some_bytes)

word_bound : (address : ℕ) → value_as 32 address < 2 ^ 32
word_bound address = omega arith

module _ (memory : List ℕ) (size offset : ℕ) (h : IsAccess memory size offset) (s : OperandStack)
    (locals items : List ℕ) (address room : ℕ) where
  abbrev effective : ℕ
  effective = value_as 32 address + offset

  -- The test of the bounds decides as the exact sum does.
  bounds_test :
      ((effective + size ≤ length memory)
        × (out_of_bounds (value_as 32 address) offset size memory ≡ false))
      ⊎ ((length memory < effective + size)
          × (out_of_bounds (value_as 32 address) offset size memory ≡ true))
  bounds_test =
      let exact = no_wrap memory size offset (value_as 32 address) h (word_bound address) in
      rw exact (elim (Bool-cases (ltb (length memory) (effective + size))) [
        | inl t ↦ inr (ltb→lt _ _ t, t)
        | inr t ↦ inl (ltb→le _ _ t, t)
      ])

  -- In a memory of at most 4 GiB a load of one to eight bytes with an offset of 32 bits traps
  -- exactly where the sum of the address, the offset and the number of bytes, without wrapping,
  -- is above the size of the memory; elsewhere it replaces the address on the stack by the
  -- extended value of the bytes at the exact sum of address and offset.
  pub load_from_memory-Represents :
      (extended : ℕ → ℕ)
      → Represents s (with_room locals (address ∷ items) room)
      → ((effective + size ≤ length memory)
          × (s' : OperandStack) × (load_from_memory size extended offset memory s ≡ done s')
          × Represents s' (with_room locals (extended (load size memory effective) ∷ items) room))
        ⊎ ((length memory < effective + size)
            × (load_from_memory size extended offset memory s ≡ trapped))
  unfolding load_from_memory
  load_from_memory-Represents extended r = elim bounds_test [
    | inl (b, t) ↦
        let place = place_inside memory size offset (value_as 32 address) h b in
        let (s', q, r') =
          set_top-Represents s locals items address (extended (load size memory effective)) room
            r in
        inl (b, s', rw (top-Represents s locals items address room r, t, place) q, r')
    | inr (b, t) ↦ inr (b, rw (top-Represents s locals items address room r, t) refl)
  ]

  -- In a memory of at most 4 GiB a store of one to eight bytes with an offset of 32 bits traps
  -- exactly where the sum of the address, the offset and the number of bytes, without wrapping,
  -- is above the size of the memory; elsewhere it takes the value and the address from the stack
  -- and writes the lowest bytes of the value at the exact sum of address and offset.
  pub store_into_memory-Represents :
      (value : ℕ)
      → Represents s (with_room locals (value ∷ address ∷ items) room)
      → ((effective + size ≤ length memory)
          × (s' : OperandStack) × (store_into_memory size offset memory s
              ≡ done (store memory effective size (value_as (8 * size) value), s'))
          × Represents s' (with_room locals items (suc (suc room))))
        ⊎ ((length memory < effective + size) × (store_into_memory size offset memory s ≡ trapped))
  unfolding store_into_memory
  store_into_memory-Represents value r =
      let (s₁, p₁, r₁) = pop-Represents s locals (address ∷ items) value room r in
      let (s₂, p₂, r₂) = pop-Represents s₁ locals items address (suc room) r₁ in
      elim bounds_test [
        | inl (b, t) ↦
            let place = place_inside memory size offset (value_as 32 address) h b in
            inl (b, s₂, rw (p₁, p₂, t, place) refl, r₂)
        | inr (b, t) ↦ inr (b, rw (p₁, p₂, t) refl)
      ]

power_of_bytes : (n : ℕ) → 2 ^ (8 * n) ≡ 256 ^ n
power_of_bytes zero = refl
power_of_bytes (suc n) =
    let e : 8 * suc n ≡ 8 + 8 * n = omega arith in
    rw e (omega (arith, two-pow-add 8 (8 * n), power_of_bytes n, pow-suc 256 n))

-- In a memory of at most 4 GiB, with an offset of 32 bits and one to eight bytes, where the
-- address, the offset and the bytes of the access end within the memory, a store succeeds and
-- keeps the size of the memory, and a load of as many bytes at the same address and offset from
-- the memory after it gives the lowest bytes of the value that was stored.
pub load_from_memory-store_into_memory :
    (memory : List ℕ) (size offset : ℕ) (s t : OperandStack) (locals items others : List ℕ)
    (value address room room' : ℕ)
    → IsAccess memory size offset
    → Represents s (with_room locals (value ∷ address ∷ items) room)
    → Represents t (with_room locals (address ∷ others) room')
    → value_as 32 address + offset + size ≤ length memory
    → (memory' : List ℕ) × (s' : OperandStack) × (t' : OperandStack) × (store_into_memory size
          offset memory s
        ≡ done (memory', s'))
      × (length memory' ≡ length memory)
      × (load_from_memory size (λ v. v) offset memory' t ≡ done t')
      × Represents t' (with_room locals (value % 2 ^ (8 * size) ∷ others) room')
load_from_memory-store_into_memory memory size offset s t locals items others value address room
      room' h r r' b =
    let place = value_as 32 address + offset in
    let low = value % 2 ^ (8 * size) in
    let memory' = store memory place size low in
    let same = length-store memory place size low b in
    let h' : IsAccess memory' size offset = record {
      memory_bound = rw same h.memory_bound;
      offset_bound = h.offset_bound;
      some_bytes = h.some_bytes;
      few_bytes = h.few_bytes;
    } in
    let read : load size memory' place ≡ low =
      load-store_here memory place size low b
      ∙ rw (power_of_bytes size) (mod-eq_of_lt (mod-lt value (power_positive size))) in
    elim (store_into_memory-Represents memory size offset h s locals items address room value r) [
      | inr (out, q) ↦ absurd (omega (arith, out, b))
      | inl (inside, s', q, rs) ↦
          elim (load_from_memory-Represents memory' size offset h' t locals others address room'
            (λ v. v) r') [
              | inr (out, q') ↦ absurd (omega (arith, out, b, same))
              | inl (inside', t', q', rt) ↦ (
                memory',
                s',
                t',
                q,
                same,
                q',
                subst (λ v. Represents t' (with_room locals (v ∷ others) room')) read rt,
              )
            ]
    ]
