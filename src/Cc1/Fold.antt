-- ===== src/Cc1/Fold.antt =====
-- The constant folder, src/cmd/cc/cc1/fold.c.
pub mod Op
pub mod Signed
pub mod Unsigned
pub mod Floating
pub mod Tree
pub mod Constant
pub mod Unary
pub mod Binary
pub mod Simplify
pub mod Meaning
mod Tests
