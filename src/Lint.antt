-- ===== src/Lint.antt =====
-- src/lint: the lints over the syntax tree.
pub mod Unreachable
