-- ===== src/Eval/Ops/Order.antt =====
-- The comparison operators on `int` and on `str`.
use yabumi.Common.{
  ◌↔◌, ℕ, suc, ◌+◌, ◌-◌, ◌++◌, ◌<◌, ◌==◌, ==_iff, inl, inr, ap, subst, Bool-cases, Bool, true,
  false, not, ◌≡◌, ◌⊎◌, refl, arith, ◌||◌, text_eq, Text, [], ◌∷◌,
}
use yabumi.Common.Int.{◌+ℤ◌, ℤ, pos, negsuc, eqb_ℤ, ltb_ℤ, leb_ℤ}
use yabumi.Diagnostics.Position.{Span}
use yabumi.Ast.Expr.{lt, lt_eq, gt, gt_eq, eq_eq, not_eq}
use yabumi.Eval.Float.{FloatOps}
use yabumi.Eval.Panic.{ok}
use yabumi.Eval.Value.{Value, int, str, bool}
use yabumi.Eval.Ops.{eval_binary, text_lt}
use yabumi.Eval.Ops.Equality.{value_eq}

-- One of three tests passes, and only one.
abbrev pub OneOf : Bool → Bool → Bool → Type 0
OneOf p q r =
    ((p ≡ true) × (q ≡ false) × (r ≡ false))
    ⊎ ((p ≡ false) × (q ≡ true) × (r ≡ false))
    ⊎ ((p ≡ false) × (q ≡ false) × (r ≡ true))

text_lt-OneOf : (s t : Text) → OneOf (text_lt s t) (text_eq s t) (text_lt t s)
unfolding text_lt text_eq
text_lt-OneOf [] [] = ground arith
text_lt-OneOf [] (y ∷ t) = ground arith
text_lt-OneOf (x ∷ s) [] = ground arith
text_lt-OneOf (x ∷ s) (y ∷ t) = ground (arith, text_lt-OneOf s t)

int-OneOf : (a b : ℤ) → OneOf (ltb_ℤ a b) (eqb_ℤ a b) (ltb_ℤ b a)
int-OneOf (pos a) (pos b) = ground arith
int-OneOf (pos a) (negsuc b) = ground arith
int-OneOf (negsuc a) (pos b) = ground arith
int-OneOf (negsuc a) (negsuc b) = ground arith

int_le : (a b : ℤ) → leb_ℤ a b ≡ (ltb_ℤ a b || eqb_ℤ a b)
int_le (pos a) (pos b) = ground arith
int_le (pos a) (negsuc b) = ground arith
int_le (negsuc a) (pos b) = ground arith
int_le (negsuc a) (negsuc b) = ground arith

int_ge : (a b : ℤ) → leb_ℤ b a ≡ (ltb_ℤ b a || eqb_ℤ a b)
int_ge (pos a) (pos b) = ground arith
int_ge (pos a) (negsuc b) = ground arith
int_ge (negsuc a) (pos b) = ground arith
int_ge (negsuc a) (negsuc b) = ground arith

-- The operands that the type checker admits to an ordering, floats left aside.
pub data Comparable : Value → Value → Type 0 where
  ints : (a b : ℤ) → Comparable (int a) (int b)
  strs : (s t : Text) → Comparable (str s) (str t)

-- What the six comparisons answer.
pub record Comparison (f : FloatOps) (v w : Value) (at : Span) : Type 0 where
  pub less : Bool
  pub same : Bool
  pub more : Bool
  pub one : OneOf less same more
  pub lt_is : eval_binary f lt v w at ≡ ok (bool less)
  pub eq_is : eval_binary f eq_eq v w at ≡ ok (bool same)
  pub gt_is : eval_binary f gt v w at ≡ ok (bool more)
  pub le_is : eval_binary f lt_eq v w at ≡ ok (bool (less || same))
  pub ge_is : eval_binary f gt_eq v w at ≡ ok (bool (more || same))
  pub ne_is : eval_binary f not_eq v w at ≡ ok (bool (not same))

-- Of two ints or two strs exactly one of `<`, `==` and `>` holds, `<=` and `>=` are the unions, and
-- `!=` is the negation of `==`.
pub compare_total : (f : FloatOps) {v w : Value} (at : Span) → Comparable v w → Comparison f v w at
unfolding eval_binary value_eq
compare_total f at (ints a b) = record {
  less = ltb_ℤ a b;
  same = eqb_ℤ a b;
  more = ltb_ℤ b a;
  one = int-OneOf a b;
  lt_is = refl;
  eq_is = refl;
  gt_is = refl;
  le_is = rw (int_le a b);
  ge_is = rw (int_ge a b);
  ne_is = refl;
}
compare_total f at (strs s t) = record {
  less = text_lt s t;
  same = text_eq s t;
  more = text_lt t s;
  one = text_lt-OneOf s t;
  lt_is = refl;
  eq_is = refl;
  gt_is = refl;
  le_is = ground (arith, text_lt-OneOf s t);
  ge_is = ground (arith, text_lt-OneOf s t);
  ne_is = refl;
}

int_less_iff : (a b : ℤ) → (ltb_ℤ a b ≡ true) ↔ ((k : ℕ) × (b ≡ a +ℤ pos (suc k)))
unfolding ◌+ℤ◌
int_less_iff (pos a) (pos b) = (λ h. (b - a - 1, ground arith), λ (k, e). ground arith)
int_less_iff (pos a) (negsuc b) = (λ h. (0, ground arith), λ (k, e). ground arith)
int_less_iff (negsuc a) (pos b) = (λ h. (b + a, ground arith), λ (k, e). ground arith)
int_less_iff (negsuc a) (negsuc b) = (λ h. (a - b - 1, ground arith), λ (k, e). ground arith)

-- The order of words: one text is a proper prefix of the other, or the first code points in which they
-- differ are in order.
abbrev pub Before : Text → Text → Type 0
Before s t =
    ((c : ℕ) × (r : Text) × (t ≡ s ++ c ∷ r))
    ⊎ ((p : Text) × (x y : ℕ) × (s' t' : Text) × (s ≡ p ++ x ∷ s') × (t ≡ p ++ y ∷ t') × (x < y))

Before-cons : (x : ℕ) (s t : Text) → Before s t → Before (x ∷ s) (x ∷ t)
Before-cons x s t (inl (c, r, e)) = inl (c, r, ap (λ u. x ∷ u) e)
Before-cons x s t (inr (p, y, z, s', t', e, e', less)) =
    inr (x ∷ p, y, z, s', t', ap (λ u. x ∷ u) e, ap (λ u. x ∷ u) e', less)

text_lt-Before : (s t : Text) → text_lt s t ≡ true → Before s t
unfolding text_lt
text_lt-Before [] [] h = cc
text_lt-Before [] (y ∷ t) h = inl (y, t, refl)
text_lt-Before (x ∷ s) [] h = cc
text_lt-Before (x ∷ s) (y ∷ t) h = elim (Bool-cases (x == y)) [
  | inl e ↦
      let same = (==_iff x y).0 e in
      let rest : text_lt s t ≡ true = ground arith in
      subst (λ z. Before (x ∷ s) (z ∷ t)) same (Before-cons x s t (text_lt-Before s t rest))
  | inr e ↦ inr ([], x, y, s, t, refl, refl, ground arith)
]

text_lt-prefix : (s : Text) (c : ℕ) (r : Text) → text_lt s (s ++ c ∷ r) ≡ true
unfolding text_lt
text_lt-prefix [] c r = refl
text_lt-prefix (x ∷ s) c r = ground (arith, text_lt-prefix s c r)

text_lt-differ :
    (p : Text) (x y : ℕ) (s t : Text) → x < y → text_lt (p ++ x ∷ s) (p ++ y ∷ t) ≡ true
unfolding text_lt
text_lt-differ [] x y s t less = ground arith
text_lt-differ (z ∷ p) x y s t less = ground (arith, text_lt-differ p x y s t less)

Before-text_lt : (s t : Text) → Before s t → text_lt s t ≡ true
Before-text_lt s t (inl (c, r, e)) = rw e (text_lt-prefix s c r)
Before-text_lt s t (inr (p, x, y, s', t', e, e', less)) =
    rw (e, e') (text_lt-differ p x y s' t' less)

-- `<` on ints holds exactly if the second is the first plus a positive number, and `<` on strs exactly if
-- the first is a proper prefix of the second, or the first code point in which they differ is the lower
-- one in the first.
pub less_iff :
    (f : FloatOps) (at : Span)
    → ((a b : ℤ)
        → (eval_binary f lt (int a) (int b) at ≡ ok (bool true))
          ↔ ((k : ℕ) × (b ≡ a +ℤ pos (suc k))))
      × ((s t : Text) → (eval_binary f lt (str s) (str t) at ≡ ok (bool true)) ↔ Before s t)
unfolding eval_binary
less_iff f at = (
  λ a b. (
    λ h. (int_less_iff a b).0 (ground arith),
    λ h. ap (λ x. ok (bool x)) ((int_less_iff a b).1 h),
  ),
  λ s t.
      (λ h. text_lt-Before s t (ground arith), λ h. ap (λ x. ok (bool x)) (Before-text_lt s t h)),
)
