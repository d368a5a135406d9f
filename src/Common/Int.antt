-- ===== src/Common/Int.antt =====
-- Signed integers over the native numbers, under the library's names, and Rust's checked `i64`.
use yabumi.Common.{
  ℕ, suc, ◌+◌, ◌-◌, ◌*◌, ◌/◌, ◌%◌, ◌^◌, ◌≤◌, ◌≡◌, Bool, arith, ltb, leb, ◌==◌, if◌then◌else◌,
  Option, some, none, ◌||◌, ◌&&◌, false, true,
}

-- `negsuc n` is -(n + 1).
pub data ℤ : Type 0 where
  pos : ℕ → ℤ
  negsuc : ℕ → ℤ

abbrev pub pos_part : ℤ → ℕ
pos_part (pos n) = n
pos_part (negsuc n) = 0

abbrev pub neg_part : ℤ → ℕ
neg_part (pos n) = 0
neg_part (negsuc n) = suc n

-- a - b, as an integer.
abbrev pub sub_ℕ : ℕ → ℕ → ℤ
sub_ℕ a b = if leb b a then pos (a - b) else negsuc (b - a - 1)

abbrev pub abs : ℤ → ℕ
abs (pos n) = n
abs (negsuc n) = suc n

-- The same integer with the sign turned.
abbrev pub neg : ℤ → ℤ
neg a = sub_ℕ (neg_part a) (pos_part a)

infixl 65 ◌+ℤ◌ ◌-ℤ◌
infixl 70 ◌*ℤ◌
infix 50 ◌≤ℤ◌
unfoldable pub ◌+ℤ◌ : ℤ → ℤ → ℤ
a +ℤ b = sub_ℕ (pos_part a + pos_part b) (neg_part a + neg_part b)

unfoldable pub ◌-ℤ◌ : ℤ → ℤ → ℤ
a -ℤ b = sub_ℕ (pos_part a + neg_part b) (neg_part a + pos_part b)

unfoldable pub ◌*ℤ◌ : ℤ → ℤ → ℤ
a *ℤ b =
    sub_ℕ (pos_part a * pos_part b + neg_part a * neg_part b)
      (pos_part a * neg_part b + neg_part a * pos_part b)

-- Division that rounds towards zero, and its remainder, which has the sign of the dividend.
unfoldable pub quot : ℤ → ℤ → ℤ
quot (pos a) (pos b) = pos (a / b)
quot (pos a) (negsuc b) = sub_ℕ 0 (a / suc b)
quot (negsuc a) (pos b) = sub_ℕ 0 (suc a / b)
quot (negsuc a) (negsuc b) = pos (suc a / suc b)

unfoldable pub rem : ℤ → ℤ → ℤ
rem (pos a) b = pos (a % abs b)
rem (negsuc a) b = sub_ℕ 0 (suc a % abs b)

abbrev pub ◌≤ℤ◌ : ℤ → ℤ → Type 0
a ≤ℤ b = pos_part a + neg_part b ≤ pos_part b + neg_part a

abbrev pub leb_ℤ : ℤ → ℤ → Bool
leb_ℤ a b = leb (pos_part a + neg_part b) (pos_part b + neg_part a)

abbrev pub ltb_ℤ : ℤ → ℤ → Bool
ltb_ℤ a b = ltb (pos_part a + neg_part b) (pos_part b + neg_part a)

abbrev pub eqb_ℤ : ℤ → ℤ → Bool
eqb_ℤ (pos a) (pos b) = a == b
eqb_ℤ (negsuc a) (negsuc b) = a == b
eqb_ℤ _ _ = false

-- `i64::MAX + 1`, and the test that an integer is an `i64`.
abbrev pub i64_bound : ℕ
i64_bound = 2 ^ 63

abbrev pub in_i64 : ℤ → Bool
in_i64 (pos n) = ltb n i64_bound
in_i64 (negsuc n) = ltb n i64_bound

abbrev pub i64_min : ℤ
i64_min = negsuc (i64_bound - 1)

-- The value if it is an `i64`: the result of Rust's `checked_` operations.
abbrev pub checked : ℤ → Option ℤ
checked a = if in_i64 a then some a else none

-- Rust's `checked_div` and `checked_rem`: `none` for a zero divisor, and for `i64::MIN` by -1, whose
-- quotient is no `i64`.
unfoldable pub checked_div : ℤ → ℤ → Option ℤ
checked_div a b = if eqb_ℤ b (pos 0) then none else checked (quot a b)

unfoldable pub checked_rem : ℤ → ℤ → Option ℤ
checked_rem a b =
    if eqb_ℤ b (pos 0) || (eqb_ℤ a i64_min && eqb_ℤ b (negsuc 0)) then none else some (rem a b)

pub eqb_ℤ_iff : (a b : ℤ) → eqb_ℤ a b ≡ true → a ≡ b
eqb_ℤ_iff (pos a) (pos b) h = ground arith
eqb_ℤ_iff (negsuc a) (negsuc b) h = ground arith
eqb_ℤ_iff (pos a) (negsuc b) h = cc
eqb_ℤ_iff (negsuc a) (pos b) h = cc

pub eqb_ℤ_self : (a : ℤ) → eqb_ℤ a a ≡ true
eqb_ℤ_self (pos a) = ground arith
eqb_ℤ_self (negsuc a) = ground arith
