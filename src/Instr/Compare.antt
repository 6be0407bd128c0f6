-- ===== src/Instr/Compare.antt =====
-- The enumerators of `Instr` in lib/fizzy/types.hpp for the comparisons.
use fizzy.Common.{ℕ}

abbrev pub i32_eqz : ℕ
i32_eqz = 0x45

abbrev pub i32_eq : ℕ
i32_eq = 0x46

abbrev pub i32_ne : ℕ
i32_ne = 0x47

abbrev pub i32_lt_s : ℕ
i32_lt_s = 0x48

abbrev pub i32_lt_u : ℕ
i32_lt_u = 0x49

abbrev pub i32_gt_s : ℕ
i32_gt_s = 0x4a

abbrev pub i32_gt_u : ℕ
i32_gt_u = 0x4b

abbrev pub i32_le_s : ℕ
i32_le_s = 0x4c

abbrev pub i32_le_u : ℕ
i32_le_u = 0x4d

abbrev pub i32_ge_s : ℕ
i32_ge_s = 0x4e

abbrev pub i32_ge_u : ℕ
i32_ge_u = 0x4f

abbrev pub i64_eqz : ℕ
i64_eqz = 0x50

abbrev pub i64_eq : ℕ
i64_eq = 0x51

abbrev pub i64_ne : ℕ
i64_ne = 0x52

abbrev pub i64_lt_s : ℕ
i64_lt_s = 0x53

abbrev pub i64_lt_u : ℕ
i64_lt_u = 0x54

abbrev pub i64_gt_s : ℕ
i64_gt_s = 0x55

abbrev pub i64_gt_u : ℕ
i64_gt_u = 0x56

abbrev pub i64_le_s : ℕ
i64_le_s = 0x57

abbrev pub i64_le_u : ℕ
i64_le_u = 0x58

abbrev pub i64_ge_s : ℕ
i64_ge_s = 0x59

abbrev pub i64_ge_u : ℕ
i64_ge_u = 0x5a

abbrev pub f32_eq : ℕ
f32_eq = 0x5b

abbrev pub f32_ne : ℕ
f32_ne = 0x5c

abbrev pub f32_lt : ℕ
f32_lt = 0x5d

abbrev pub f32_gt : ℕ
f32_gt = 0x5e

abbrev pub f32_le : ℕ
f32_le = 0x5f

abbrev pub f32_ge : ℕ
f32_ge = 0x60

abbrev pub f64_eq : ℕ
f64_eq = 0x61

abbrev pub f64_ne : ℕ
f64_ne = 0x62

abbrev pub f64_lt : ℕ
f64_lt = 0x63

abbrev pub f64_gt : ℕ
f64_gt = 0x64

abbrev pub f64_le : ℕ
f64_le = 0x65

abbrev pub f64_ge : ℕ
f64_ge = 0x66
