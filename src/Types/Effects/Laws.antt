-- ===== src/Types/Effects/Laws.antt =====
-- The order of effect sets is inclusion of their names, and a union is the least upper bound.
use yabumi.Common.{
  ltb→lt, &&-true, ltb, sym, ℕ, ◌<◌, Bool, true, false, not, ◌&&◌, ◌||◌, all, any, List, Text,
  text_eq, ◌≡◌, refl, arith, every_below, every_below-holds,
}
use yabumi.Types.Effects.{EffectSet, empty, union, is_subset_of, names}

abbrev iff : Bool → Bool → Bool
iff true b = b
iff false b = not b

iff→eq : (a b : Bool) → iff a b ≡ true → a ≡ b
iff→eq true b h = sym h
iff→eq false true h = cc
iff→eq false false h = refl

abbrev pub has : List Text → Text → Bool
has ns n = any (text_eq n) ns

abbrev subset_test : ℕ → ℕ → Bool
subset_test a b = iff (is_subset_of a b) (all (has (names b)) (names a))

subset_table : every_below (λ a. every_below (subset_test a) 64) 64 ≡ true
unfolding every_below is_subset_of names text_eq
subset_table = refl

-- One set of the six flags is a subset of another exactly when every name of the one is a name of
-- the other.
pub is_subset_of-names :
    (a b : EffectSet) → a < 64 → b < 64 → is_subset_of a b ≡ all (has (names b)) (names a)
is_subset_of-names a b ha hb = iff→eq _ _ (
    every_below-holds (subset_test a) b hb
      (every_below-holds (λ x. every_below (subset_test x) 64) a ha subset_table))

abbrev bound_test : ℕ → ℕ → ℕ → Bool
bound_test a b c = not (is_subset_of a c && is_subset_of b c) || is_subset_of (union a b) c

abbrev union_test : ℕ → ℕ → Bool
union_test a b =
    is_subset_of a (union a b)
    && (is_subset_of b (union a b) && (ltb (union a b) 64 && every_below (bound_test a b) 64))

union_table : every_below (λ a. every_below (union_test a) 64) 64 ≡ true
unfolding every_below union is_subset_of
union_table = refl

-- A union of two sets of the six flags is one that includes both, and every set of the six flags
-- that includes both includes it.
pub union-lub :
    (a b c : EffectSet)
    → a < 64
    → b < 64
    → c < 64
    → (is_subset_of a (union a b) ≡ true)
      × (is_subset_of b (union a b) ≡ true)
      × (union a b < 64)
      × (is_subset_of a c ≡ true → is_subset_of b c ≡ true → is_subset_of (union a b) c ≡ true)
union-lub a b c ha hb hc =
    let row = every_below-holds (λ x. every_below (union_test x) 64) a ha union_table in
    let (p, q) =
      &&-true (is_subset_of a (union a b)) _ (every_below-holds (union_test a) b hb row) in
    let (r, s) = &&-true (is_subset_of b (union a b)) _ q in
    let (t, u) = &&-true (ltb (union a b) 64) _ s in
    (p, r, ltb→lt _ _ t, λ x y. ground (arith, every_below-holds (bound_test a b) c hc u))

abbrev split_test : ℕ → ℕ → ℕ → Bool
split_test a b c = iff (is_subset_of (union a b) c) (is_subset_of a c && is_subset_of b c)

split_table : every_below (λ a. every_below (λ b. every_below (split_test a b) 64) 64) 64 ≡ true
unfolding every_below union is_subset_of
split_table = refl

pub is_subset_of-union :
    (a b c : EffectSet)
    → a < 64
    → b < 64
    → c < 64
    → is_subset_of (union a b) c ≡ (is_subset_of a c && is_subset_of b c)
is_subset_of-union a b c ha hb hc =
    let row =
      every_below-holds (λ x. every_below (λ y. every_below (split_test x y) 64) 64) a ha
        split_table in
    iff→eq _ _ (
      every_below-holds (split_test a b) c hc
        (every_below-holds (λ y. every_below (split_test a y) 64) b hb row))

empty_table : every_below (is_subset_of empty) 64 ≡ true
unfolding every_below is_subset_of
empty_table = refl

pub is_subset_of-empty : (b : EffectSet) → b < 64 → is_subset_of empty b ≡ true
is_subset_of-empty b hb = every_below-holds (is_subset_of empty) b hb empty_table
