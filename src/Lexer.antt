-- ===== src/Lexer.antt =====
-- src/lexer: tokens, the character cursor and the indentation of logical lines.
pub mod Token
pub mod Cursor
pub mod Indent
