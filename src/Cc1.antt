-- ===== src/Cc1.antt =====
-- The C front end, src/cmd/cc/cc1: its types and their sizes, integer constants, conditional
-- inclusion, the constant folder and the symbol table.
pub mod Types
pub mod Fold
pub mod Layout
pub mod Lex
pub mod Cpp
pub mod Symbols
