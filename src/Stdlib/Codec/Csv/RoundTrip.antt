-- ===== src/Stdlib/Codec/Csv/RoundTrip.antt =====
-- The scanner of src/stdlib/codec/csv.rs reads back the lines that `encode` writes.
use yabumi.Common.{
  ℕ, ◌==◌, ==_iff, Bool, true, false, List, [], ◌∷◌, ◌++◌, Option, some, none, Text, ◌≡◌, refl, ◌∙◌,
  ap, arith, append_assoc, append-nil, Bool-cases, inl, inr, All,
}
use yabumi.Common.Result.{ok}
use yabumi.Stdlib.Codec.Csv.{
  Scanner, advance, skip, double_quotes, needs_quotes, escape_csv_field, round, finish, scan,
  parse_csv_rows, join_escaped, encode_lines,
}

-- The scanner outside quotes, and inside.
abbrev Open : List (List Text) → List Text → Text → Bool → Bool → Scanner
Open rows row field closed content = record {
  rows = rows;
  row = row;
  field = field;
  in_quotes = false;
  quote_closed = closed;
  row_has_content = content;
}

abbrev Quoted : List (List Text) → List Text → Text → Bool → Scanner
Quoted rows row field content = record {
  rows = rows;
  row = row;
  field = field;
  in_quotes = true;
  quote_closed = false;
  row_has_content = content;
}

abbrev head : Text → Option ℕ
head [] = none
head (c ∷ cs) = some c

scan-advance :
    (s t : Scanner) (c : ℕ) (cs : Text)
    → round s c (head cs) ≡ advance t
    → scan s (c ∷ cs) ≡ scan t cs
unfolding scan
scan-advance s t c [] h = rw (scan, h)
scan-advance s t c (d ∷ cs) h = rw (scan, h)

scan-skip :
    (s t : Scanner) (c d : ℕ) (cs : Text)
    → round s c (some d) ≡ skip t
    → scan s (c ∷ d ∷ cs) ≡ scan t cs
unfolding scan
scan-skip s t c d cs h = rw (scan, h)

module _ (rows : List (List Text)) (row : List Text) where
  quoted_char :
      (f : Text) (h : Bool) (c : ℕ) (next : Option ℕ)
      → (c == 34) ≡ false
      → round (Quoted rows row f h) c next ≡ advance (Quoted rows row (f ++ c ∷ []) h)
  unfolding round
  quoted_char f h c next differ = ground arith

  quoted_quote :
      (f : Text) (h : Bool)
      → round (Quoted rows row f h) 34 (some 34) ≡ skip (Quoted rows row (f ++ 34 ∷ []) h)
  unfolding round
  quoted_quote f h = refl

  closing_quote :
      (f : Text) (h : Bool) (c : ℕ)
      → (c == 34) ≡ false
      → round (Quoted rows row f h) 34 (some c) ≡ advance (Open rows row f true h)
  unfolding round
  closing_quote f h c differ = ground arith

  -- The rest of a quoted field, up to the quote that closes it.
  scan-quoted :
      (s f : Text) (c : ℕ) (rest : Text) (h : Bool)
      → (c == 34) ≡ false
      → scan (Quoted rows row f h) (double_quotes s ++ 34 ∷ c ∷ rest)
        ≡ scan (Open rows row (f ++ s) true h) (c ∷ rest)
  unfolding double_quotes
  scan-quoted [] f c rest h differ =
      rw (append-nil f) (scan-advance _ _ 34 (c ∷ rest) (closing_quote f h c differ))
  scan-quoted (x ∷ s) f c rest h differ = elim (Bool-cases (x == 34)) [
    | inl same ↦
        let later = scan-quoted s (f ++ 34 ∷ []) c rest h differ in
        let here = scan-skip _ _ 34 34 (double_quotes s ++ 34 ∷ c ∷ rest) (quoted_quote f h) in
        rw (same, (==_iff x 34).0 same) (here ∙ rw (← append_assoc f (34 ∷ []) s) later)
    | inr other ↦
        let later = scan-quoted s (f ++ x ∷ []) c rest h differ in
        let here =
          scan-advance _ _ x (double_quotes s ++ 34 ∷ c ∷ rest) (quoted_char f h x _ other) in
        rw other (here ∙ rw (← append_assoc f (x ∷ []) s) later)
  ]

  opening_quote :
      (h : Bool) (next : Option ℕ)
      → round (Open rows row [] false h) 34 next ≡ advance (Quoted rows row [] true)
  unfolding round
  opening_quote h next = refl

  plain_char :
      (f : Text) (h : Bool) (x : ℕ) (s : Text) (next : Option ℕ)
      → needs_quotes (x ∷ s) ≡ false
      → (round (Open rows row f false h) x next ≡ advance (Open rows row (f ++ x ∷ []) false true))
        × (needs_quotes s ≡ false)
  unfolding round
  plain_char f h x s next plain = (ground arith, ground arith)

  at_comma :
      (f : Text) (closed h : Bool) (next : Option ℕ)
      → round (Open rows row f closed h) 44 next ≡ advance (Open rows (row ++ f ∷ []) [] false true)
  unfolding round
  at_comma f true h next = refl
  at_comma f false h next = refl

  at_newline :
      (f : Text) (closed h : Bool) (next : Option ℕ)
      → round (Open rows row f closed h) 10 next
        ≡ advance (Open (rows ++ (row ++ f ∷ []) ∷ []) [] [] false false)
  unfolding round
  at_newline f true h next = refl
  at_newline f false h next = refl

  -- A field that needs no quotes.
  scan-plain :
      (s f rest : Text) (h : Bool)
      → needs_quotes s ≡ false
      → (h' : Bool) × (scan (Open rows row f false h) (s ++ rest)
          ≡ scan (Open rows row (f ++ s) false h') rest)
  scan-plain [] f rest h plain = (h, rw (append-nil f) refl)
  scan-plain (x ∷ s) f rest h plain =
      let (step, plain') = plain_char f h x s (head (s ++ rest)) plain in
      let (h', later) = scan-plain s (f ++ x ∷ []) rest true plain' in
      (
        h',
        scan-advance _ _ x (s ++ rest) step
            ∙ later
            ∙ ap (λ g. scan (Open rows row g false h') rest) (append_assoc f (x ∷ []) s),
      )

  -- A field, up to what parts it from the next one.
  scan-field :
      (s : Text) (c : ℕ) (rest : Text) (h : Bool)
      → (c == 34) ≡ false
      → (q h' : Bool) × (scan (Open rows row [] false h) (escape_csv_field s ++ c ∷ rest)
          ≡ scan (Open rows row s q h') (c ∷ rest))
  unfolding escape_csv_field
  scan-field s c rest h differ = elim (Bool-cases (needs_quotes s)) [
    | inl quoted ↦ (
      true,
      true,
      rw quoted (
          scan-advance _ _ 34 ((double_quotes s ++ 34 ∷ []) ++ c ∷ rest) (opening_quote h _)
          ∙ rw (append_assoc (double_quotes s) (34 ∷ []) (c ∷ rest))
              (scan-quoted s [] c rest true differ)),
    )
    | inr plain ↦ let (h', e) = scan-plain s [] (c ∷ rest) h plain in (false, h', rw plain e)
  ]

module _ (rows : List (List Text)) where
  -- A line gives one row more.
  scan-line :
      (row : List Text) (c : Text) (cs : List Text) (rest : Text) (h : Bool)
      → scan (Open rows row [] false h) (join_escaped (c ∷ cs) ++ 10 ∷ rest)
        ≡ scan (Open (rows ++ (row ++ c ∷ cs) ∷ []) [] [] false false) rest
  unfolding join_escaped
  scan-line row c [] rest h =
      let (q, h', e) = scan-field rows row c 10 rest h refl in
      e ∙ scan-advance _ _ 10 rest (at_newline rows row c q h' _)
  scan-line row c (d ∷ cs) rest h =
      let more = join_escaped (d ∷ cs) ++ 10 ∷ rest in
      let (q, h', e) = scan-field rows row c 44 more h refl in
      let later = scan-line (row ++ c ∷ []) d cs rest true in
      rw (append_assoc (escape_csv_field c) (44 ∷ join_escaped (d ∷ cs)) (10 ∷ rest)) (
        e
        ∙ scan-advance _ _ 44 more (at_comma rows row c q h' _)
        ∙ later
        ∙ ap (λ r. scan (Open (rows ++ r ∷ []) [] [] false false) rest)
            (append_assoc row (c ∷ []) (d ∷ cs)))

-- A row has a cell.
abbrev pub HasCell : List Text → Type 0
HasCell [] = ⊥
HasCell (c ∷ cs) = Unit

scan-encode_lines :
    (rows lines : List (List Text))
    → All HasCell lines
    → scan (Open rows [] [] false false) (encode_lines lines) ≡ ok (rows ++ lines)
unfolding encode_lines scan finish
scan-encode_lines rows [] all = rw (append-nil rows) refl
scan-encode_lines rows ([] ∷ lines) (none_here, all) = absurd none_here
scan-encode_lines rows ((c ∷ cs) ∷ lines) (here, all) =
    rw (append_assoc (join_escaped (c ∷ cs)) (10 ∷ []) (encode_lines lines)) (
      scan-line rows [] c cs (encode_lines lines) false
      ∙ scan-encode_lines (rows ++ (c ∷ cs) ∷ []) lines all
      ∙ ap ok (append_assoc rows ((c ∷ cs) ∷ []) lines))

-- What `encode` writes for rows of texts, each with a cell, is scanned back as those rows, whatever
-- commas, quotes and line ends the texts hold.
pub parse_csv_rows-encode_lines :
    (lines : List (List Text)) → All HasCell lines → parse_csv_rows (encode_lines lines) ≡ ok lines
unfolding parse_csv_rows
parse_csv_rows-encode_lines lines all = scan-encode_lines [] lines all
