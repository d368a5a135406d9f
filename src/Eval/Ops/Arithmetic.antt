-- ===== src/Eval/Ops/Arithmetic.antt =====
-- What the integer operators compute, and when they abort.
use yabumi.Common.{◌<◌, true, false, ◌≡◌, ◌⊎◌, ◌↔◌, inl, inr, refl, arith, Bool-cases}
use yabumi.Common.Int.{
  ℤ, pos, negsuc, pos_part, neg_part, abs, ◌+ℤ◌, ◌*ℤ◌, quot, rem, in_i64, i64_min, checked_div,
  checked_rem, eqb_ℤ, eqb_ℤ_iff,
}
use yabumi.Diagnostics.Position.{Span}
use yabumi.Ast.Expr.{BinaryOp, add, sub, mul, div, modulo}
use yabumi.Eval.Float.{FloatOps}
use yabumi.Eval.Panic.{ok, abort, overflow, div_by_zero}
use yabumi.Eval.Value.{int}
use yabumi.Eval.Ops.{eval_binary}

-- The truncated quotient and remainder make up the dividend.
quot-rem : (a b : ℤ) → quot a b *ℤ b +ℤ rem a b ≡ a
unfolding quot rem ◌*ℤ◌ ◌+ℤ◌
quot-rem (pos a) (pos b) = ground arith
quot-rem (pos a) (negsuc b) = ground arith
quot-rem (negsuc a) (pos b) = ground arith
quot-rem (negsuc a) (negsuc b) = ground arith

rem-lt : (a b : ℤ) → 0 < abs b → abs (rem a b) < abs b
unfolding rem
rem-lt (pos a) (pos b) h = ground arith
rem-lt (pos a) (negsuc b) h = ground arith
rem-lt (negsuc a) (pos b) h = ground arith
rem-lt (negsuc a) (negsuc b) h = ground arith

rem-in_i64 : (a b : ℤ) → in_i64 a ≡ true → 0 < abs b → in_i64 (rem a b) ≡ true
unfolding rem
rem-in_i64 (pos a) b h k = ground arith
rem-in_i64 (negsuc a) b h k = ground arith

-- The quotient is no `i64` in one case only.
quot-in_i64 :
    (a b : ℤ)
    → in_i64 a ≡ true
    → 0 < abs b
    → (in_i64 (quot a b) ≡ true) ⊎ ((a ≡ i64_min) × (b ≡ negsuc 0))
unfolding quot
quot-in_i64 (pos a) (pos b) h p = inl (ground arith)
quot-in_i64 (pos a) (negsuc b) h p = inl (ground arith)
quot-in_i64 (negsuc a) (pos b) h p = inl (ground arith)
quot-in_i64 (negsuc a) (negsuc b) h p = ground arith

-- The remainder is on the dividend's side of 0.
abbrev pub SameSide : ℤ → ℤ → Type 0
SameSide a r = (neg_part a ≡ 0 → neg_part r ≡ 0) × (pos_part a ≡ 0 → pos_part r ≡ 0)

rem-SameSide : (a b : ℤ) → SameSide a (rem a b)
unfolding rem
rem-SameSide (pos a) b = ground arith
rem-SameSide (negsuc a) b = ground arith

-- A test against 0 that fails.
abs_pos : (b : ℤ) → eqb_ℤ b (pos 0) ≡ false → 0 < abs b
abs_pos (pos b) h = ground arith
abs_pos (negsuc b) h = omega arith

module _ (f : FloatOps) (a b : ℤ) (at : Span) where
  div-eq-ok : {q : ℤ} → eval_binary f div (int a) (int b) at ≡ ok (int q) → quot a b ≡ q
  unfolding eval_binary checked_div
  div-eq-ok h = ground arith

  modulo-eq-ok :
      {r : ℤ} → eval_binary f modulo (int a) (int b) at ≡ ok (int r) → (rem a b ≡ r) × (0 < abs b)
  unfolding eval_binary checked_rem
  modulo-eq-ok h = ground (arith, abs_pos b)

  -- Where `a / b` gives `q` and `a % b` gives `r`, `q * b + r` is `a`, `r` is smaller than `b` in
  -- absolute value, and `r` is not on the other side of 0 than `a`.
  pub div_modulo_law :
      {q r : ℤ}
      → eval_binary f div (int a) (int b) at ≡ ok (int q)
      → eval_binary f modulo (int a) (int b) at ≡ ok (int r)
      → (q *ℤ b +ℤ r ≡ a) × (abs r < abs b) × SameSide a r
  div_modulo_law h k =
      let (e, p) = modulo-eq-ok k in
      rw (← div-eq-ok h, ← e) (quot-rem a b, rem-lt a b p, rem-SameSide a b)

  -- For `a` within `i64`, `a / b` aborts with a division by zero and `b` is 0, or it aborts with an
  -- overflow and is `i64::MIN / -1`, or it gives an int within `i64`.
  pub div_outcomes :
      in_i64 a ≡ true
      → ((b ≡ pos 0) × (eval_binary f div (int a) (int b) at ≡ abort (div_by_zero at)))
        ⊎ ((a ≡ i64_min)
            × (b ≡ negsuc 0)
            × (eval_binary f div (int a) (int b) at ≡ abort (overflow at)))
        ⊎ ((q : ℤ) × (in_i64 q ≡ true) × (eval_binary f div (int a) (int b) at ≡ ok (int q)))
  unfolding eval_binary checked_div
  div_outcomes h = elim (Bool-cases (eqb_ℤ b (pos 0))) [
    | inl z ↦ inl (eqb_ℤ_iff b (pos 0) z, rw z)
    | inr z ↦ elim (quot-in_i64 a b h (abs_pos b z)) [
      | inl i ↦ inr (inr (quot a b, i, rw (z, i)))
      | inr m ↦ inr (inl (m.0, m.1, rw (m.0, m.1) (unfold quot in refl)))
    ]
  ]

  -- `a % b` aborts exactly for `b = 0` and for `i64::MIN % -1`, with a division by zero both times.
  pub modulo_abort_iff :
      (eval_binary f modulo (int a) (int b) at ≡ abort (div_by_zero at))
      ↔ ((b ≡ pos 0) ⊎ ((a ≡ i64_min) × (b ≡ negsuc 0)))
  unfolding eval_binary checked_rem
  modulo_abort_iff = (
    ground (arith, eqb_ℤ_iff b (pos 0), eqb_ℤ_iff a i64_min, eqb_ℤ_iff b (negsuc 0)),
    ground arith,
  )

  -- An operator on two ints, of which the left one is within `i64`, gives no int outside `i64`.
  pub eval_binary-in_i64 :
      (op : BinaryOp) {r : ℤ}
      → in_i64 a ≡ true
      → eval_binary f op (int a) (int b) at ≡ ok (int r)
      → in_i64 r ≡ true
  unfolding eval_binary checked_div checked_rem
  eval_binary-in_i64 add h e = ground arith
  eval_binary-in_i64 sub h e = ground arith
  eval_binary-in_i64 mul h e = ground arith
  eval_binary-in_i64 div h e = ground arith
  eval_binary-in_i64 modulo h e = ground (arith, abs_pos b, rem-in_i64 a b)
  eval_binary-in_i64 _ h e = cc
