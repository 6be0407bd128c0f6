-- ===== src/Execute/Globals.antt =====
-- The cases of the switch of lib/fizzy/execute.cpp that use the globals and the memory of the
-- instance.
pub mod Pointers
pub mod RoundTrip
use fizzy.Common.{
  ℕ, ◌+◌, ◌-◌, List, length, get_elem?, set, ltb, if◌then◌else◌, none, some, Bool, Run, done,
  ◌then◌, require, present,
}
use fizzy.Stack.{top, set_top, push, pop}
use fizzy.Instance.{
  Instance, Store, get_instance, pointee, set_memory, set_instance, read_value, write_value,
}
use fizzy.Execute.Operators.{value_as}
use fizzy.Execute.Memory.{load_from_memory, store_into_memory, grow_memory, memory_size}
use fizzy.Execute.State.{in_store, go_on, Handler, read}

-- The value of a global by its index, imported ones first.
unfoldable pub get_global : Store → Instance → ℕ → Run ℕ
unfolding read_value
get_global store instance idx =
    let imported = length instance.imported_globals in
    require (ltb idx (imported + length instance.globals)) (
      if ltb idx imported
      then (present (get_elem? instance.imported_globals idx) then λ global.
          read_value store global.value)
      else require (ltb (idx - imported) (length instance.module_of.globalsec))
          (present (get_elem? instance.globals (idx - imported))))

-- Writes the global of the instance with number `i`.
unfoldable pub set_global : Store → ℕ → Instance → ℕ → ℕ → Run Store
unfolding write_value
set_global store i instance idx value =
    let imported = length instance.imported_globals in
    if ltb idx imported
    then (present (get_elem? instance.imported_globals idx) then λ global.
        require global.type.is_mutable (write_value store global.value value))
    else (present (get_elem? instance.module_of.globalsec (idx - imported)) then λ global.
        require global.type.is_mutable (
          require (ltb (idx - imported) (length instance.globals)) (
            done (
              set_instance store i
                (record instance { globals = set instance.globals (idx - imported) value })))))

unfoldable pub handle_global_get : Handler
unfolding read get_global push
handle_global_get frame m = in_store m.store (
    get_instance m.store frame.instance then λ instance.
    read 4 frame.code.instructions m.pc then λ (idx, pc').
    get_global m.store instance idx then λ value.
    push value m.stack then λ stack'. done (go_on (record m { pc = pc'; stack = stack' })))

unfoldable pub handle_global_set : Handler
unfolding read set_global pop
handle_global_set frame m = in_store m.store (
    get_instance m.store frame.instance then λ instance.
    read 4 frame.code.instructions m.pc then λ (idx, pc'). pop m.stack then λ (value, stack').
    set_global m.store frame.instance instance idx value then λ store'.
    done (go_on (record { pc = pc'; stack = stack'; store = store' })))

-- The bytes that `*memory` is.
abbrev pub memory_of : Store → Instance → Run (List ℕ)
memory_of store instance = pointee store.memories instance.memory

abbrev pub with_memory : Store → Instance → List ℕ → Store
with_memory store instance bytes = elim instance.memory [
  | none ↦ store
  | some m ↦ set_memory store m bytes
]

-- A load of `size` bytes.
unfoldable pub handle_load : ℕ → (ℕ → ℕ) → Handler
unfolding read load_from_memory
handle_load size extended frame m = in_store m.store (
    get_instance m.store frame.instance then λ instance. memory_of m.store instance then λ memory.
    read 4 frame.code.instructions m.pc then λ (offset, pc').
    load_from_memory size extended offset memory m.stack then λ stack'.
    done (go_on (record m { pc = pc'; stack = stack' })))

-- A store of `size` bytes.
unfoldable pub handle_store : ℕ → Handler
unfolding read store_into_memory
handle_store size frame m = in_store m.store (
    get_instance m.store frame.instance then λ instance. memory_of m.store instance then λ memory.
    read 4 frame.code.instructions m.pc then λ (offset, pc').
    store_into_memory size offset memory m.stack then λ (memory', stack').
    done
      (go_on (record { pc = pc'; stack = stack'; store = with_memory m.store instance memory' })))

unfoldable pub handle_memory_size : Handler
unfolding memory_size push
handle_memory_size frame m = in_store m.store (
    get_instance m.store frame.instance then λ instance. memory_of m.store instance then λ memory.
    memory_size memory then λ pages.
    push pages m.stack then λ stack'. done (go_on (record m { stack = stack' })))

unfoldable pub handle_memory_grow : (ℕ → Bool) → Handler
unfolding grow_memory top set_top
handle_memory_grow can_resize frame m = in_store m.store (
    get_instance m.store frame.instance then λ instance. memory_of m.store instance then λ memory.
    top m.stack then λ delta.
    grow_memory can_resize memory (value_as 32 delta) instance.memory_pages_limit
    then λ (pages, memory'). set_top pages m.stack then λ stack'.
        done (go_on (record m { stack = stack'; store = with_memory m.store instance memory' })))
