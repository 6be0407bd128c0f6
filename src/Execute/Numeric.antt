-- ===== src/Execute/Numeric.antt =====
-- The cases of the switch of lib/fizzy/execute.cpp that only use the operand stack.
pub mod Compare
pub mod Words
pub mod Fractions
pub mod Conversions
pub mod Accesses
pub mod Follows
