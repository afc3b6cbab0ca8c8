-- ===== src/Cc1/Symbols/Ns.antt =====
-- The namespaces of cc1.h.
use simple_scc.Common.{ℕ}

abbrev pub iden : ℕ
iden = 1

abbrev pub tag : ℕ
tag = 2

abbrev pub label : ℕ
label = 3

abbrev pub cpp : ℕ
cpp = 4

abbrev pub keyword : ℕ
keyword = 5

abbrev pub cppclauses : ℕ
cppclauses = 6

abbrev pub structs : ℕ
structs = 7
