-- ===== src/Eval/Ops.antt =====
-- src/eval/ops.rs: the operators on values that are already evaluated.
pub mod Equality
pub mod Arithmetic
pub mod Order
use yabumi.Common.{
  ℕ, ◌==◌, ltb, Bool, true, false, not, ◌&&◌, ◌||◌, Option, some, none, if◌then◌else◌, [], ◌∷◌,
  ◌++◌, Text,
}
use yabumi.Common.Int.{
  ℤ, pos, neg, ◌+ℤ◌, ◌-ℤ◌, ◌*ℤ◌, checked, checked_div, checked_rem, ltb_ℤ, leb_ℤ, eqb_ℤ,
}
use yabumi.Diagnostics.Position.{Span}
use yabumi.Ast.Expr.{
  BinaryOp, UnaryOp, add, sub, mul, div, modulo, lt, lt_eq, gt, gt_eq, eq_eq, not_eq, and, or,
}
use yabumi.Eval.Float.{FloatOps}
use yabumi.Eval.Panic.{Abort, Outcome, ok, abort, unreachable, overflow, div_by_zero}
use yabumi.Eval.Value.{Value, int, float, bool, str, list, merge}
use yabumi.Eval.Ops.Equality.{value_eq}

-- `str`'s order: by bytes, which for UTF-8 is by code points.
unfoldable pub text_lt : Text → Text → Bool
text_lt s [] = false
text_lt [] (y ∷ t) = true
text_lt (x ∷ s) (y ∷ t) = ltb x y || (x == y && text_lt s t)

-- `checked.map(Value::Int).ok_or_else(|| fault)`
abbrev pub int_or : Option ℤ → Abort → Outcome Value
int_or none fault = abort fault
int_or (some n) fault = ok (int n)

module _ (f : FloatOps) where
  unfoldable pub eval_binary : BinaryOp → Value → Value → Span → Outcome Value
  unfolding text_lt
  eval_binary add (int a) (int b) at = int_or (checked (a +ℤ b)) (overflow at)
  eval_binary add (float a) (float b) at = ok (float (f.add a b))
  eval_binary add (str a) (str b) at = ok (str (a ++ b))
  eval_binary add (list a) (list b) at = ok (list (merge a b))
  eval_binary sub (int a) (int b) at = int_or (checked (a -ℤ b)) (overflow at)
  eval_binary sub (float a) (float b) at = ok (float (f.sub a b))
  eval_binary mul (int a) (int b) at = int_or (checked (a *ℤ b)) (overflow at)
  eval_binary mul (float a) (float b) at = ok (float (f.mul a b))
  eval_binary div (int a) (int b) at =
      if eqb_ℤ b (pos 0) then abort (div_by_zero at) else int_or (checked_div a b) (overflow at)
  eval_binary div (float a) (float b) at = ok (float (f.div a b))
  eval_binary modulo (int a) (int b) at = int_or (checked_rem a b) (div_by_zero at)
  eval_binary lt (int a) (int b) at = ok (bool (ltb_ℤ a b))
  eval_binary lt (float a) (float b) at = ok (bool (f.lt a b))
  eval_binary lt (str a) (str b) at = ok (bool (text_lt a b))
  eval_binary lt_eq (int a) (int b) at = ok (bool (leb_ℤ a b))
  eval_binary lt_eq (float a) (float b) at = ok (bool (f.le a b))
  eval_binary lt_eq (str a) (str b) at = ok (bool (not (text_lt b a)))
  eval_binary gt (int a) (int b) at = ok (bool (ltb_ℤ b a))
  eval_binary gt (float a) (float b) at = ok (bool (f.lt b a))
  eval_binary gt (str a) (str b) at = ok (bool (text_lt b a))
  eval_binary gt_eq (int a) (int b) at = ok (bool (leb_ℤ b a))
  eval_binary gt_eq (float a) (float b) at = ok (bool (f.le b a))
  eval_binary gt_eq (str a) (str b) at = ok (bool (not (text_lt a b)))
  eval_binary eq_eq a b at = ok (bool (value_eq f a b))
  eval_binary not_eq a b at = ok (bool (not (value_eq f a b)))
  eval_binary _ a b at = unreachable

  unfoldable pub eval_unary : UnaryOp → Value → Span → Outcome Value
  eval_unary UnaryOp.neg (int n) at = int_or (checked (neg n)) (overflow at)
  eval_unary UnaryOp.neg (float n) at = ok (float (f.neg n))
  eval_unary UnaryOp.not (bool b) at = ok (bool (not b))
  eval_unary _ v at = unreachable
