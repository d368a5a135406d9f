-- ===== src/Common/Decimal.antt =====
-- Rust's `i64::to_string`, `str::parse::<i64>` and `str::trim`.
use yabumi.Common.{
  ℕ, zero, suc, ◌+◌, ◌-◌, ◌*◌, ◌/◌, ◌%◌, ◌≤◌, ◌<◌, ◌≡◌, refl, arith, ◌==◌, ltb, leb, Bool, true,
  not, ◌&&◌, ◌||◌, all, [], ◌∷◌, Option, some, none, if◌then◌else◌, Text, ◌>>=◌, Bool-cases, inl,
  inr, sym, ◌∙◌, ap,
}
use yabumi.Common.Int.{ℤ, pos, negsuc, sub_ℕ, in_i64, checked}

-- The digits of `n` in front of `out`, by fuel: `n + 1` is enough.
unfoldable pub digits_onto : ℕ → ℕ → Text → Text
digits_onto zero n out = out
digits_onto (suc fuel) n out =
    let rest = digits_onto fuel (n / 10) ((48 + n % 10) ∷ out) in
    if ltb n 10 then (48 + n) ∷ out else rest

unfoldable pub digits : ℕ → Text
unfolding digits_onto
digits n = digits_onto (suc n) n []

unfoldable pub int_to_string : ℤ → Text
unfolding digits
int_to_string (pos n) = digits n
int_to_string (negsuc n) = 45 ∷ digits (suc n)

abbrev is_digit : ℕ → Bool
is_digit c = leb 48 c && ltb c 58

-- The value of a run of digits behind the number read so far.
unfoldable pub read_digits : Text → ℕ → Option ℕ
read_digits [] acc = some acc
read_digits (c ∷ cs) acc = if is_digit c then read_digits cs (acc * 10 + (c - 48)) else none

abbrev magnitude : Text → Option ℕ
magnitude [] = none
magnitude (c ∷ cs) = read_digits (c ∷ cs) 0

-- An empty text, a sign alone, another character and a value outside `i64` are errors.
unfoldable pub parse_i64 : Text → Option ℤ
unfolding read_digits
parse_i64 [] = none
parse_i64 (c ∷ cs) =
    if c == 43
    then (magnitude cs >>= λ n. checked (pos n))
    else if c == 45
    then (magnitude cs >>= λ n. checked (sub_ℕ 0 n))
    else (magnitude (c ∷ cs) >>= λ n. checked (pos n))

-- Unicode's `White_Space`.
abbrev pub is_whitespace : ℕ → Bool
is_whitespace c =
    (leb 9 c && leb c 13)
    || c == 32
    || c == 0x85
    || c == 0xa0
    || c == 0x1680
    || (leb 0x2000 c && leb c 0x200a)
    || c == 0x2028
    || c == 0x2029
    || c == 0x202f
    || c == 0x205f
    || c == 0x3000

unfoldable pub trim_start : Text → Text
trim_start [] = []
trim_start (c ∷ cs) = if is_whitespace c then trim_start cs else c ∷ cs

abbrev cons_trimmed : ℕ → Text → Text
cons_trimmed c [] = if is_whitespace c then [] else c ∷ []
cons_trimmed c (d ∷ ds) = c ∷ d ∷ ds

unfoldable pub trim_end : Text → Text
trim_end [] = []
trim_end (c ∷ cs) = cons_trimmed c (trim_end cs)

unfoldable pub trim : Text → Text
unfolding trim_start trim_end
trim cs = trim_end (trim_start cs)

read_last : (n : ℕ) (out : Text) → read_digits ((48 + n % 10) ∷ out) (n / 10) ≡ read_digits out n
unfolding read_digits
read_last n out = ground arith

read_end : (n : ℕ) → read_digits [] n ≡ some n
unfolding read_digits
read_end n = refl

digits_onto-read :
    (fuel n : ℕ) (out : Text)
    → n < fuel
    → read_digits (digits_onto fuel n out) 0 ≡ read_digits out n
unfolding digits_onto read_digits
digits_onto-read zero n out h = absurd (omega arith)
digits_onto-read (suc fuel) n out h =
    ground (arith, digits_onto-read fuel (n / 10) ((48 + n % 10) ∷ out), read_last n out)

-- A number's digits begin with one.
digits_onto-head :
    (fuel n : ℕ) (out : Text)
    → n < fuel
    → (c : ℕ) × (cs : Text) × (digits_onto fuel n out ≡ c ∷ cs) × (48 ≤ c) × (c < 58)
unfolding digits_onto
digits_onto-head zero n out h = absurd (omega arith)
digits_onto-head (suc fuel) n out h = elim (Bool-cases (ltb n 10)) [
  | inl small ↦ (48 + n, out, rw small, omega arith, ground arith)
  | inr big ↦
      let (c, cs, e, lo, hi) =
        digits_onto-head fuel (n / 10) ((48 + n % 10) ∷ out) (ground arith) in
      (c, cs, rw big e, lo, hi)
]

digits-head : (n : ℕ) → (c : ℕ) × (cs : Text) × (digits n ≡ c ∷ cs) × (48 ≤ c) × (c < 58)
unfolding digits
digits-head n = digits_onto-head (suc n) n [] (omega arith)

magnitude-digits : (n : ℕ) → magnitude (digits n) ≡ some n
unfolding digits
magnitude-digits n =
    let (c, cs, e, lo, hi) = digits_onto-head (suc n) n [] (omega arith) in
    let read = digits_onto-read (suc n) n [] (omega arith) in rw e (rw (← e) (read ∙ read_end n))

parse_unsigned :
    (c : ℕ) (cs : Text) (n : ℕ)
    → 48 ≤ c
    → magnitude (c ∷ cs) ≡ some n
    → parse_i64 (c ∷ cs) ≡ checked (pos n)
unfolding parse_i64
parse_unsigned c cs n lo h = ground arith

parse_signed :
    (cs : Text) (n : ℕ) → magnitude cs ≡ some n → parse_i64 (45 ∷ cs) ≡ checked (sub_ℕ 0 n)
unfolding parse_i64
parse_signed cs n h = rw h

parse_i64-digits : (n : ℕ) → parse_i64 (digits n) ≡ checked (pos n)
parse_i64-digits n =
    let (c, cs, e, lo, hi) = digits-head n in
    rw e (parse_unsigned c cs n lo (sym (ap magnitude e) ∙ magnitude-digits n))

-- What an `i64` is printed as is read back as it.
pub parse_i64-int_to_string : (n : ℤ) → in_i64 n ≡ true → parse_i64 (int_to_string n) ≡ some n
unfolding int_to_string
parse_i64-int_to_string (pos n) h = parse_i64-digits n ∙ ground arith
parse_i64-int_to_string (negsuc n) h =
    parse_signed (digits (suc n)) (suc n) (magnitude-digits (suc n)) ∙ ground arith

-- A text without white space is what it is trimmed to.
trim_end-plain : (s : Text) → all (λ c. not (is_whitespace c)) s ≡ true → trim_end s ≡ s
unfolding trim_end
trim_end-plain [] h = refl
trim_end-plain (c ∷ []) h = ground arith
trim_end-plain (c ∷ d ∷ cs) h = rw (trim_end-plain (d ∷ cs) (ground arith)) refl

pub trim-plain : (s : Text) → all (λ c. not (is_whitespace c)) s ≡ true → trim s ≡ s
unfolding trim
trim-plain [] h = trim_end-plain [] h
trim-plain (c ∷ cs) h = ground (arith, trim_end-plain (c ∷ cs) h)

digits_onto-plain :
    (fuel n : ℕ) (out : Text)
    → n < fuel
    → all (λ c. not (is_whitespace c)) out ≡ true
    → all (λ c. not (is_whitespace c)) (digits_onto fuel n out) ≡ true
unfolding digits_onto
digits_onto-plain zero n out h plain = absurd (omega arith)
digits_onto-plain (suc fuel) n out h plain =
    ground (arith, digits_onto-plain fuel (n / 10) ((48 + n % 10) ∷ out))

pub trim-int_to_string : (n : ℤ) → trim (int_to_string n) ≡ int_to_string n
unfolding int_to_string digits
trim-int_to_string (pos n) = trim-plain _ (digits_onto-plain (suc n) n [] (omega arith) refl)
trim-int_to_string (negsuc n) =
    trim-plain _ (digits_onto-plain (suc (suc n)) (suc n) [] (omega arith) refl)
