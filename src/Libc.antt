-- ===== src/Libc.antt =====
-- The C library, src/libc: numbers read from text, byte strings, multibyte characters, binary
-- search, calendar time and the free list of the allocator. A pointer to characters is the list of the bytes from it to the end of
-- its object; reading past them is undefined.
pub mod Strto
pub mod Str
pub mod Time
pub mod Bsearch
pub mod Malloc
pub mod Wchar
