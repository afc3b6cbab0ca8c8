-- ===== src/Lib.antt =====
-- A verification library for the simple-scc tool chain: a C compiler with its assembler, linker,
-- make, binary utilities and C library. It models parts of the compiler, the linker and three
-- libraries of the repository, by definitions that can be run; what is proved of them is listed
-- below under Results.
--
-- The parts and their files
--
-- The compiler's front end (src/cmd/cc/cc1) parses a translation unit into expression trees, and
-- simplifies each tree before it is written for the back end.
--   Cc1/Types: `struct type`, `struct limits`, the tables of limits and `getlimits` of types.c, and
--     `ones` of fold.c.
--   Cc1/Fold/Op, Tree: `enum op`, `struct symbol` and `struct node` of cc1.h, `constnode` and
--     `offsetnode` of code.c, `cmpnode` and `power2node` of expr.c.
--   Cc1/Fold/Signed: the validators `addi`, `subi`, `muli`, `divi`, `lshi`, `rshi` and `foldint` of
--     fold.c. Its children compare the validators (Exact), the table of limits (Limits) and the
--     results (Range, Sound) with exact integers.
--   Cc1/Fold/Unsigned: `folduint`, and its child Modular, arithmetic modulo the width.
--   Cc1/Fold/Floating: `addf`, `subf`, `mulf`, `divf` and `foldfloat`.
--   Cc1/Fold/Constant: `foldconst` and `fold`, which choose among the three by the type.
--   Cc1/Fold/Unary: `foldcast` and `foldunary`.
--   Cc1/Fold/Binary: `commutative`, `identity`, `foldternary`, `reduce` and `associative`, with
--     `negop` of expr.c.
--   Cc1/Fold/Simplify: `xxsimplify`, `xsimplify` and `simplify`, which apply all of these to a tree.
--   Cc1/Fold/Meaning: what a tree means when it runs. Its children compare the meanings before and
--     after `fold` of two constants (Folded, Constant), `identity` (Neutral, Identity),
--     `commutative` (Commutative) and `reduce` (Reduce).
-- Before it parses, the front end reads lines and tokens, and it gives its types a size.
--   Cc1/Cpp: the conditional directives of cpp.c with `ifclause` and `elseclause`, on the levels of
--     `ifstate` and the count `cppoff`. What a condition says stands in its directive, and a line of
--     text is a number. Levels follows the innermost level, Groups holds nested groups of lines and
--     what the C standard keeps of them, Elif the chains with #elif.
--   Cc1/Lex/Integer: `number`, `integer`, `digits` and `readint` of lex.c and the case INT of `ctype`,
--     with the integer types of amd64-sysv.c. Fits is about the type that a constant gets, and Tried
--     about the order of the types. A type is followed by one later in the list of six, so that seven
--     rounds of `settle` are enough.
--   Cc1/Layout: `typesize` of types.c, with its numbers modulo 2 ^ 64; Round and Struct are about the
--     members of a struct.
-- The front end's names are in a symbol table, which follows the blocks of the program.
--   Cc1/Symbols: symbol.c, with the chains of `hash` and the lists `head` and `labels` as lists of
--     addresses. Ns holds the enum `namespaces`. Scope and Linked are about the symbols of a context
--     in the chains, Actions about what a context can do, Context about `pushctx` and `popctx`.
-- Libscc is `genhash` of src/libscc, and strcmp as a test, which the compiler and the linker call.
-- Its child Alloc is the pool allocator of alloc.c, with the free list in Apart, the programs that use
-- a pool in Run, and what `new` returns to them in Total.
-- The linker (src/cmd/ld) collects the symbols of the object files.
--   Ld/Links: `linksym` and `unlinksym` of symbol.c on the fields `next` and `prev`; its children
--     compare the rings of pointers with lists, for one operation (Ring) and for a move (Moves).
--   Ld/Symtab: `hasref`, `lookupsym`, `moreundef` and `define`; its children follow the types of the
--     symbols (Types) and what `hasref` answers (Refs).
-- The object file library (src/libmach) reads and writes headers through two functions that a
-- format drives. Mach/Pack/Pack and Mach/Pack/Unpack are `pack` of pack.c and `unpack` of unpack.c
-- in both byte orders; Word and WordLaws hold the words of two, four and eight bytes, Format the
-- formats, and RoundTrip runs one after the other. Mach/Coff32 stands on it: Io is the file and the
-- calls with their assertions, Headers and Symbols are the records of the headers in include/bits/scc/coff32
-- and the functions of coff32read.c and coff32write.c, with relocations in Relocs; Front, Entries
-- and Sections read what was written.
-- The C library (src/libc). Libc/Strto: `strtol`, `strtoul`, their variants in stdlib and inttypes,
-- and `_dtoi`; its children Exact and Value compare the loops and the functions with the numbers that
-- texts write. Libc/Str: functions of src/libc/string, with a child for comparison, for spans, for
-- moves and for copies. Libc/Time: `gmtime`, `mktime` with `norm` and `normalize`, `_daysyear`,
-- `_newyear` and `_systime` of src/libc/time and arch/posix; its children Fields and RoundTrip follow
-- a broken-down time through `mktime`. Libc/Wchar: `_validutf8`, `wcrtomb` and `mbrtowc`.
-- Libc/Bsearch: `bsearch` of stdlib, with sorted arrays in Sorted; its fuel is the size of the range
-- and two, which a round makes smaller.
-- Libc/Malloc: `_prevchunk` and `free` of malloc.c on the fields of the headers, with the ring of the
-- free chunks in Ring, the changes of `free` in Free and Units; the fuel of the search is two rounds of
-- the ring.
-- Common holds what these share: names of the libraries, Boolean tests, integers over the native
-- numbers, bit operations, and C's undefined behaviour as a result (Common/Ub).
--
-- How the code is modelled
--
--   * An operation that C leaves undefined (a signed overflow, a shift by the width, a division by
--     zero, a read past an object) is `undefined`, and a theorem that says `ok` excludes it. `abort`
--     is `undefined` too.
--   * TINT is an integer that `tint` keeps within 64 bits, TUINT a number below 2 ^ 64 with the
--     wrap-around written out. Left shifts of negative values are `undefined`, right shifts round down, as on the machines that
--     the compiler runs on. TFLOAT and its operations are a parameter, `FloatOps`.
--   * A function that changes a node in place returns the new node. A node that is freed is gone
--     from the tree. A tree holds its symbols by value.
--   * `xxsimplify` repeats while the operation of the node changes; the model allows 4 * size + 4
--     rounds, and `none` is the answer where they are spent. `errorp` and `warn` are left out, as
--     the tree does not depend on them.
--   * `Machine` stands for the nodes that the folder does not compute with: a change of a state that
--     depends on the node and the state alone.
--   * Pointers to characters are lists of the bytes up to the end of the object; `memmove` works on
--     a memory, a function from addresses to bytes, so that its objects can overlap. The maps of
--     `strspn`, `strcspn` and `strpbrk` have 128 places, and an access behind them is `undefined`.
--   * `isspace`, `toupper`, `isdigit` and `atoi` are those of the C standard in the C locale. long,
--     long long and intmax_t have 64 bits.
--   * The arguments of `unpack` are taken to be pointers of the right types; what is stored through
--     them is a list.
--   * A structure that the symbol tables allocate is a number, and a store gives its fields. Reading
--     freed or null is `undefined`, as is a failed assertion, and so is the end of the compiler by
--     `error` or `die` in `pushctx` and `newid`. The tokens, types and warnings of symbol.c are left
--     out. Characters of names are not negative.
--   * Addresses of the pool allocator count in units of its union `hdr`, whose size is a parameter, and
--     what `xmalloc` returns is an argument of `new`. An overflow of the size of an arena is
--     `undefined`, since the loop then writes past it.
--   * The chunk `base` of the allocator, a static variable, is taken to lie below the heap.
--   * NR_COND is that of cstd-c99.h. A complaint of the preprocessor, with which no program comes out, ends a
--     run of its lines.
--   * In a COFF object, a field is the number of its two or four bytes, also where the struct has a
--     signed type. Memory can be had, and writing to a file succeeds. The longs are those of amd64.
--   * Times are not negative. _MAXYEAR, of the host, is a parameter. A number of `mktime` that leaves
--     the range of int is `undefined`; where `mktime` returns -1 the model does not say which fields
--     it has changed. The loop of `gmtime` over the years has the days as fuel, those of `normalize`
--     over the months the days before and behind the month; a day is used up in every round.
--
-- What is not modelled: macros, the other tokens and the parser of the front end, the back ends
-- (src/cmd/cc/cc2), the driver, the assembler, the passes of the linker, make and the utilities,
-- the other object formats and archives, and the parts of the C library that get memory, use
-- files or write dates. They do input and output, or keep large global state.
pub mod Common
pub mod Libscc
pub mod Cc1
pub mod Ld
pub mod Mach
pub mod Libc
