-- ===== src/Parser.antt =====
-- lib/fizzy/parser.cpp: from the bytes of a binary to a validated module.
pub mod Monad
pub mod Basic
pub mod Entries
pub mod Sections
pub mod Validate
pub mod Local
pub mod Expr
pub mod Code
mod Tests
