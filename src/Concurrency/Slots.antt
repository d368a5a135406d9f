-- ===== src/Concurrency/Slots.antt =====
-- The slots, described by the set of the branches whose value has come.
use yabumi.Common.{
  ℕ, zero, suc, ◌+◌, ◌<◌, ◌≤◌, ◌==◌, Bool, true, false, ◌||◌, List, [], ◌∷◌, ◌++◌, all, set, Option,
  some, none, ◌≡◌, refl, sym, ap, ap₂, ◌∙◌, arith, Bool-cases, inl, inr, map, &&-true,
}
use yabumi.Concurrency.{receive, empty_slots, collected, par_outcome, is_some, indices}
use yabumi.Eval.Flow.{Flow}
use yabumi.Eval.Panic.{Outcome, ok, ◌>>=◌}
use yabumi.Eval.Value.{Value}

abbrev pub mem : ℕ → List ℕ → Bool
mem i [] = false
mem i (j ∷ js) = (j == i) || mem i js

pub mem-append : (i : ℕ) (xs ys : List ℕ) → mem i (xs ++ ys) ≡ (mem i xs || mem i ys)
mem-append i [] ys = refl
mem-append i (j ∷ xs) ys = ground (arith, mem-append i xs ys)

module _ (vs : ℕ → Value) where
  abbrev slot : Bool → Value → Option Value
  slot true v = some v
  slot false v = none

  is_some-slot : (b : Bool) (v : Value) → is_some (slot b v) ≡ b
  is_some-slot true v = refl
  is_some-slot false v = refl

  abbrev slots_of : (ℕ → Bool) → ℕ → ℕ → List (Option Value)
  slots_of f base zero = []
  slots_of f base (suc n) = slot (f base) (vs base) ∷ slots_of f (suc base) n

  slots_of-agree :
      (f g : ℕ → Bool) (base n : ℕ)
      → ((j : ℕ) → base ≤ j → f j ≡ g j)
      → slots_of f base n ≡ slots_of g base n
  slots_of-agree f g base zero h = refl
  slots_of-agree f g base (suc n) h =
      ap₂ (λ b rest. slot b (vs base) ∷ rest) (h base (omega arith))
        (slots_of-agree f g (suc base) n (λ j le. h j (omega arith)))

  abbrev also : (ℕ → Bool) → ℕ → ℕ → Bool
  also f i j = (i == j) || f j

  set-slots_of :
      (f : ℕ → Bool) (base n k i : ℕ)
      → i ≡ base + k
      → set (slots_of f base n) k (some (vs i)) ≡ slots_of (also f i) base n
  set-slots_of f base zero k i e = refl
  set-slots_of f base (suc n) zero i e =
      let same : i ≡ base = omega arith in
      ap₂ (λ a rest. a ∷ rest) (let b : also f i base ≡ true = ground arith in rw (b, same) refl)
        (slots_of-agree f (also f i) (suc base) n (λ j le. ground arith))
  set-slots_of f base (suc n) (suc k) i e =
      ap₂ (λ a rest. a ∷ rest) (let b : also f i base ≡ f base = ground arith in rw b refl)
        (set-slots_of f (suc base) n k i (omega arith))

  collected-slots_of :
      (f : ℕ → Bool) (base n : ℕ)
      → all is_some (slots_of f base n) ≡ true
      → collected (slots_of f base n) ≡ ok (map vs (indices base n))
  unfolding collected indices
  collected-slots_of f base zero h = refl
  collected-slots_of f base (suc n) h =
      let (p, q) = &&-true (is_some (slot (f base) (vs base))) _ h in
      elim (Bool-cases (f base)) [
        | inl e ↦ rw (e, collected-slots_of f (suc base) n q) refl
        | inr e ↦ let there = sym (is_some-slot (f base) (vs base)) ∙ p in cc
      ]

  all-slots_of :
      (f : ℕ → Bool) (base n : ℕ)
      → ((j : ℕ) → base ≤ j → j < base + n → f j ≡ true)
      → all is_some (slots_of f base n) ≡ true
  all-slots_of f base zero h = refl
  all-slots_of f base (suc n) h =
      rw (h base (omega arith) (omega arith))
        (all-slots_of f (suc base) n (λ j le lt. h j (omega arith) (omega arith)))

  slots_of-empty : (base n : ℕ) → slots_of (λ j. false) base n ≡ empty_slots n
  unfolding empty_slots
  slots_of-empty base zero = refl
  slots_of-empty base (suc n) = ap (λ rest. none ∷ rest) (slots_of-empty (suc base) n)

  module _ (n : ℕ) (results : ℕ → Outcome (Flow Value))
      (value : (i : ℕ) → i < n → results i ≡ ok (Flow.value (vs i))) where
    receive_all :
        (messages : List ℕ) (f : ℕ → Bool)
        → ((i : ℕ) → mem i messages ≡ true → i < n)
        → ((i : ℕ) → i < n → (f i || mem i messages) ≡ true)
        → (receive results messages (slots_of f 0 n) >>= collected) ≡ ok (map vs (indices 0 n))
    unfolding receive
    receive_all [] f below every =
        collected-slots_of f 0 n
          (all-slots_of f 0 n (λ j le lt. ground (arith, every j (omega arith))))
    receive_all (i ∷ rest) f below every =
        rw (value i (below i (ground arith)), set-slots_of f 0 n i i (omega arith))
          (elim (Bool-cases (all is_some (slots_of (also f i) 0 n))) [
            | inl e ↦ rw e (collected-slots_of (also f i) 0 n e)
            | inr e ↦ rw e (
                receive_all rest (also f i) (λ j m. below j (ground arith))
                  (λ j lt. ground (arith, every j lt)))
          ])

    -- Messages of all branches, in any order, give the values in the order of the branches.
    pub par_outcome-in_order :
        (messages : List ℕ)
        → ((i : ℕ) → mem i messages ≡ true → i < n)
        → ((i : ℕ) → i < n → mem i messages ≡ true)
        → par_outcome results n messages ≡ ok (map vs (indices 0 n))
    unfolding par_outcome
    par_outcome-in_order messages below every =
        rw (← slots_of-empty 0 n) (receive_all messages (λ j. false) below (λ i lt. every i lt))
