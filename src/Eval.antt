-- ===== src/Eval.antt =====
-- src/eval: values, the environment and the operators, and the evaluation of expressions.
pub mod Float
pub mod Value
pub mod Panic
pub mod Ops
pub mod Env
pub mod Program
pub mod Match
pub mod Lvalue
pub mod Host
pub mod Flow
pub mod Call
pub mod Clone
pub mod Steps
pub mod Expr
pub mod Run
