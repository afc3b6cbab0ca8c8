-- ===== src/Mach.antt =====
-- The object file library, src/libmach.
pub mod Pack
pub mod Coff32
