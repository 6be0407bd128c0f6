-- ===== src/Stack.antt =====
-- `OperandStack` of lib/fizzy/stack.hpp: the locals and the operands of a call in one storage. The
-- pointers `m_bottom` and `m_top` are indices into the storage, where `m_locals` points to its begin.
pub mod Items
pub mod Refines
pub mod Meaning
pub mod Implements
pub mod Traces
pub mod Start
mod Tests
use fizzy.Common.{
  ℕ, ◌+◌, ◌-◌, List, [], ◌∷◌, ◌++◌, length, get_elem?, set, take, drop, replicate, ltb, leb, ◌==◌,
  not, if◌then◌else◌, Run, done, broken, ◌then◌, require, present, Bool, Option,
}

pub record OperandStack : Type 0 where
  pub storage : List ℕ
  pub bottom : ℕ
  pub top_index : ℕ

-- `128 / sizeof(Value)`
abbrev pub small_storage_size : ℕ
small_storage_size = 16

-- The small storage is not initialized beyond the locals, where it holds `junk`; a large one is zero.
unfoldable pub operand_stack : ℕ → List ℕ → ℕ → ℕ → ℕ → Run OperandStack
operand_stack junk args num_args num_local_variables max_stack_height =
    let num_locals = num_args + num_local_variables in
    let num_locals_adjusted = num_locals + (if num_locals == 0 then 1 else 0) in
    let required = num_locals_adjusted + max_stack_height in
    let size = if leb required small_storage_size then small_storage_size else required in
    let filler = if leb required small_storage_size then junk else 0 in
    require (leb num_args (length args)) (
      done (record {
        storage =
            (take num_args args ++ replicate num_local_variables 0)
            ++ replicate (size - num_locals) filler;
        bottom = num_locals_adjusted;
        top_index = num_locals_adjusted - 1;
      }))

unfoldable pub size : OperandStack → ℕ
size s = s.top_index + 1 - s.bottom

unfoldable pub get_local : ℕ → OperandStack → Run ℕ
get_local index s = require (ltb index s.bottom) (present (get_elem? s.storage index))

-- `*p = item`
abbrev pub write : ℕ → ℕ → OperandStack → Run OperandStack
write p item s =
    require (ltb p (length s.storage)) (done (record s { storage = set s.storage p item }))

unfoldable pub set_local : ℕ → ℕ → OperandStack → Run OperandStack
set_local index item s = require (ltb index s.bottom) (write index item s)

unfoldable pub top : OperandStack → Run ℕ
unfolding size
top s = require (not (size s == 0)) (present (get_elem? s.storage s.top_index))

unfoldable pub set_top : ℕ → OperandStack → Run OperandStack
unfolding size
set_top item s = require (not (size s == 0)) (write s.top_index item s)

-- `operator[]`: the item at a position from the top.
unfoldable pub item_below_top : ℕ → OperandStack → Run ℕ
unfolding size
item_below_top index s =
    require (ltb index (size s)) (present (get_elem? s.storage (s.top_index - index)))

unfoldable pub push : ℕ → OperandStack → Run OperandStack
push item s = write (s.top_index + 1) item (record s { top_index = s.top_index + 1 })

unfoldable pub pop : OperandStack → Run (ℕ × OperandStack)
unfolding top
pop s = top s then λ item. done (item, record s { top_index = s.top_index - 1 })

-- `drop`
unfoldable pub drop_items : ℕ → OperandStack → Run OperandStack
unfolding size
drop_items num s = require (leb num (size s)) (done (record s { top_index = s.top_index - num }))

-- The topmost `num` items, the lowest first: what `rend() - num` points to.
unfoldable pub top_items : ℕ → OperandStack → Run (List ℕ)
unfolding size
top_items num s =
    require (leb num (size s)) (done (take num (drop (s.top_index + 1 - num) s.storage)))
