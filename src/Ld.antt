-- ===== src/Ld.antt =====
-- The linker, src/cmd/ld: the lists that its symbols are in, and its symbol table.
pub mod Links
pub mod Symtab
