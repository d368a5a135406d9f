-- ===== src/Lsp.antt =====
-- src/lsp: the language server's positions.
pub mod Pos
