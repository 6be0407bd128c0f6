-- ===== src/Execute/Memory.antt =====
-- The access to the linear memory in lib/fizzy/execute.cpp: `load_from_memory`, `store_into_memory`
-- and `grow_memory`. A memory is the list of its bytes.
pub mod RoundTrip
pub mod Access
pub mod Grow
use fizzy.Common.{
  ℕ, zero, suc, ◌+◌, ◌-◌, ◌*◌, ◌/◌, ◌%◌, ◌^◌, List, [], ◌∷◌, ◌++◌, length, take, drop, replicate,
  ltb, leb, ◌==◌, ◌||◌, if◌then◌else◌, Run, done, trapped, ◌then◌, require, Bool,
}
use fizzy.Parser.Basic.{little_endian}
use fizzy.Parser.Entries.{page_size}
use fizzy.Stack.{OperandStack, top, set_top, pop}
use fizzy.Execute.Operators.{value_as}

-- `MaxMemoryPagesLimit`
abbrev pub max_pages : ℕ
max_pages = 65536

-- The bytes that `memcpy` writes of a number: the target is little-endian.
unfoldable pub bytes_of : ℕ → ℕ → List ℕ
bytes_of zero value = []
bytes_of (suc size) value = value % 256 ∷ bytes_of size (value / 256)

-- `load` of a value of `size` bytes; the caller has tested the bounds.
unfoldable pub load : ℕ → List ℕ → ℕ → ℕ
unfolding little_endian
load size input offset = little_endian (take size (drop offset input))

-- `store`
unfoldable pub store : List ℕ → ℕ → ℕ → ℕ → List ℕ
unfolding bytes_of
store input offset size value =
    take offset input ++ (bytes_of size value ++ drop (offset + size) input)

-- The test of the bounds, with 64 bits.
abbrev pub out_of_bounds : ℕ → ℕ → ℕ → List ℕ → Bool
out_of_bounds address offset size memory = ltb (length memory) ((address + offset + size) % 2 ^ 64)

-- `address + offset` with 32 bits.
abbrev pub place_of : ℕ → ℕ → ℕ
place_of address offset = (address + offset) % 2 ^ 32

-- `load_from_memory` of a value of `size` bytes, which `extended` makes a value of the destination.
unfoldable pub load_from_memory : ℕ → (ℕ → ℕ) → ℕ → List ℕ → OperandStack → Run OperandStack
unfolding top set_top load
load_from_memory size extended offset memory stack = top stack then λ address.
    let a = value_as 32 address in
    if out_of_bounds a offset size memory
    then trapped
    else set_top (extended (load size memory (place_of a offset))) stack

-- `store_into_memory` of the lowest `size` bytes of the value.
unfoldable pub store_into_memory : ℕ → ℕ → List ℕ → OperandStack → Run (List ℕ × OperandStack)
unfolding pop store
store_into_memory size offset memory stack = pop stack then λ (value, rest).
    pop rest then λ (address, rest').
    let a = value_as 32 address in
    if out_of_bounds a offset size memory
    then trapped
    else done (store memory (place_of a offset) size (value_as (8 * size) value), rest')

-- `static_cast<uint32_t>(-1)`
abbrev pub failure : ℕ
failure = 2 ^ 32 - 1

-- The pages before, and the memory after; `can_resize` tells whether the host has the
-- bytes; `resize` to the size that the memory has needs none.
unfoldable pub grow_memory : (ℕ → Bool) → List ℕ → ℕ → ℕ → Run (ℕ × List ℕ)
grow_memory can_resize memory delta_pages memory_pages_limit =
    let cur_pages = length memory / page_size in
    let new_pages = (cur_pages + delta_pages) % 2 ^ 64 in
    require (length memory % page_size == 0) (
      require (leb memory_pages_limit max_pages) (
        require (leb cur_pages memory_pages_limit) (
          if ltb memory_pages_limit new_pages
          then done (failure, memory)
          else require (leb (new_pages * page_size % 2 ^ 64) (2 ^ 32 - 1)) (
              if delta_pages == 0 || can_resize (new_pages * page_size)
              then done (cur_pages, memory ++ replicate (new_pages * page_size - length memory) 0)
              else done (failure, memory)))))

-- `memory_size`
unfoldable pub memory_size : List ℕ → Run ℕ
memory_size memory =
    require (length memory % page_size == 0) (done (length memory / page_size % 2 ^ 32))
