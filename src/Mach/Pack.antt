-- ===== src/Mach/Pack.antt =====
-- src/libmach/pack.c and unpack.c: numbers to bytes and back, driven by a format.
pub mod Format
pub mod Word
pub mod WordLaws
pub mod Pack
pub mod Unpack
pub mod RoundTrip
mod Tests
