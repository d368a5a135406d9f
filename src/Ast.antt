-- ===== src/Ast.antt =====
-- src/ast: the syntax tree.
pub mod TypeAnn
pub mod Pattern
pub mod Expr
pub mod Decl
