-- ===== src/Instr/Control.antt =====
-- The enumerators of `Instr` in lib/fizzy/types.hpp up to the constants: control, variables, memory.
use fizzy.Common.{ℕ}

abbrev pub unreachable : ℕ
unreachable = 0x00

abbrev pub nop : ℕ
nop = 0x01

abbrev pub block : ℕ
block = 0x02

abbrev pub loop : ℕ
loop = 0x03

abbrev pub if_ : ℕ
if_ = 0x04

abbrev pub else_ : ℕ
else_ = 0x05

abbrev pub end : ℕ
end = 0x0b

abbrev pub br : ℕ
br = 0x0c

abbrev pub br_if : ℕ
br_if = 0x0d

abbrev pub br_table : ℕ
br_table = 0x0e

abbrev pub return_ : ℕ
return_ = 0x0f

abbrev pub call : ℕ
call = 0x10

abbrev pub call_indirect : ℕ
call_indirect = 0x11

abbrev pub drop : ℕ
drop = 0x1a

abbrev pub select : ℕ
select = 0x1b

abbrev pub local_get : ℕ
local_get = 0x20

abbrev pub local_set : ℕ
local_set = 0x21

abbrev pub local_tee : ℕ
local_tee = 0x22

abbrev pub global_get : ℕ
global_get = 0x23

abbrev pub global_set : ℕ
global_set = 0x24

abbrev pub i32_load : ℕ
i32_load = 0x28

abbrev pub i64_load : ℕ
i64_load = 0x29

abbrev pub f32_load : ℕ
f32_load = 0x2a

abbrev pub f64_load : ℕ
f64_load = 0x2b

abbrev pub i32_load8_s : ℕ
i32_load8_s = 0x2c

abbrev pub i32_load8_u : ℕ
i32_load8_u = 0x2d

abbrev pub i32_load16_s : ℕ
i32_load16_s = 0x2e

abbrev pub i32_load16_u : ℕ
i32_load16_u = 0x2f

abbrev pub i64_load8_s : ℕ
i64_load8_s = 0x30

abbrev pub i64_load8_u : ℕ
i64_load8_u = 0x31

abbrev pub i64_load16_s : ℕ
i64_load16_s = 0x32

abbrev pub i64_load16_u : ℕ
i64_load16_u = 0x33

abbrev pub i64_load32_s : ℕ
i64_load32_s = 0x34

abbrev pub i64_load32_u : ℕ
i64_load32_u = 0x35

abbrev pub i32_store : ℕ
i32_store = 0x36

abbrev pub i64_store : ℕ
i64_store = 0x37

abbrev pub f32_store : ℕ
f32_store = 0x38

abbrev pub f64_store : ℕ
f64_store = 0x39

abbrev pub i32_store8 : ℕ
i32_store8 = 0x3a

abbrev pub i32_store16 : ℕ
i32_store16 = 0x3b

abbrev pub i64_store8 : ℕ
i64_store8 = 0x3c

abbrev pub i64_store16 : ℕ
i64_store16 = 0x3d

abbrev pub i64_store32 : ℕ
i64_store32 = 0x3e

abbrev pub memory_size : ℕ
memory_size = 0x3f

abbrev pub memory_grow : ℕ
memory_grow = 0x40

abbrev pub i32_const : ℕ
i32_const = 0x41

abbrev pub i64_const : ℕ
i64_const = 0x42

abbrev pub f32_const : ℕ
f32_const = 0x43

abbrev pub f64_const : ℕ
f64_const = 0x44
