-- ===== src/Eval/Float.antt =====
-- The operations of `f64` that the evaluator calls. IEEE 754 arithmetic is the hardware's, so it is a
-- parameter: bit patterns in, bit patterns out.
use yabumi.Common.{Bool}
use yabumi.Ast.Pattern.{F64}

pub record FloatOps : Type 0 where
  pub add : F64 → F64 → F64
  pub sub : F64 → F64 → F64
  pub mul : F64 → F64 → F64
  pub div : F64 → F64 → F64
  pub neg : F64 → F64
  pub lt : F64 → F64 → Bool
  pub le : F64 → F64 → Bool
  pub eq : F64 → F64 → Bool
