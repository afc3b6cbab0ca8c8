-- ===== src/Cc1/Lex.antt =====
-- The lexer of the front end, src/cmd/cc/cc1/lex.c: integer constants.
pub mod Integer
