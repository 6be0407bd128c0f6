-- ===== src/Instr.antt =====
-- The enumerators of `Instr` in lib/fizzy/types.hpp. An instruction is its byte.
mod Control
mod Compare
mod Integer
mod Float
mod Convert
pub use Control.*
pub use Compare.*
pub use Integer.*
pub use Float.*
pub use Convert.*
