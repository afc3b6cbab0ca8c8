-- ===== src/Mach/Coff32.antt =====
-- The headers and symbols of COFF object files, src/libmach/coff32/coff32read.c and coff32write.c, with
-- the types of amd64: a long has eight bytes, of which four are in the file.
pub mod Io
pub mod Headers
pub mod Symbols
pub mod Front
pub mod Entries
pub mod Relocs
pub mod Sections
mod Tests
