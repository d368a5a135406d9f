-- ===== src/Stdlib/Codec/Csv/Typed.antt =====
-- `decode` of src/stdlib/codec/csv.rs reads back the table that `encode` writes.
use yabumi.Common.{
  ℕ, suc, Bool, true, false, List, [], ◌∷◌, ◌++◌, some, Text, text, text_eq, text_eq_refl, length,
  ◌≡◌, refl, sym, ◌∙◌, ap, arith, All, append_assoc, length-append,
}
use yabumi.Common.Int.{ℤ, in_i64}
use yabumi.Common.Decimal.{trim, parse_i64-int_to_string, trim-int_to_string, trim-plain}
use yabumi.Common.Result.{ok}
use yabumi.Ast.Pattern.{F64}
use yabumi.Ast.Decl.{Param}
use yabumi.Eval.Program.{param_names}
use yabumi.Eval.Value.{Value, Values, nil, cons}
use yabumi.Stdlib.Codec.{FloatText, format_float_default}
use yabumi.Stdlib.Codec.Csv.Table.{
  field_kind_name, parse_cell, format_cell, kind_or_str, cells_of, lines_of, position_trimmed,
  columns, read_cells, read_rows, read_struct, is_blank, cell_at,
}

-- No white space stands round the name, and no later field has it.
abbrev pub DistinctNames : List Param → Type 0
DistinctNames [] = Unit
DistinctNames (p ∷ ps) =
    (trim p.name ≡ p.name) × All (λ q. text_eq p.name q.name ≡ false) ps × DistinctNames ps

module _ (f : FloatText) where
  -- A value of the kind; a float is one that the standard library reads back.
  pub data FitsCell : Value → Text → Type 0 where
    an_int : (n : ℤ) → in_i64 n ≡ true → FitsCell (Value.int n) (text "int")
    a_float :
        (x : F64)
        → f.parse (trim (format_float_default f x)) ≡ some x
        → FitsCell (Value.float x) (text "float")
    a_bool : (b : Bool) → FitsCell (Value.bool b) (text "bool")
    a_str : (s : Text) → FitsCell (Value.str s) (text "str")

  abbrev pub FitsRow : List Param → Values → Type 0
  FitsRow [] nil = Unit
  FitsRow (p ∷ ps) (cons v vs) = FitsCell v (kind_or_str p) × FitsRow ps vs
  FitsRow _ _ = ⊥

  -- Structs of the type, none of which is the one empty text.
  pub data FitsRows (name : Text) (ps : List Param) : Values → Type 0 where
    no_rows : FitsRows name ps nil
    also_row :
        (vs rows : Values)
        → FitsRow ps vs
        → is_blank (cells_of f ps vs) ≡ false
        → FitsRows name ps rows
        → FitsRows name ps (cons (Value.struct name vs) rows)

  parse_cell-format_cell :
      (v : Value) (kind : Text) → FitsCell v kind → parse_cell f (format_cell f v kind) kind ≡ ok v
  unfolding parse_cell format_cell text_eq
  parse_cell-format_cell _ _ (an_int n h) = rw (trim-int_to_string n, parse_i64-int_to_string n h)
  parse_cell-format_cell _ _ (a_float x h) = rw (h)
  parse_cell-format_cell _ _ (a_bool true) = rw (trim-plain (text "true") refl)
  parse_cell-format_cell _ _ (a_bool false) = rw (trim-plain (text "false") refl)
  parse_cell-format_cell _ _ (a_str s) = refl

abbrev pub columns_from : ℕ → List Param → List (ℕ × Text)
columns_from n [] = []
columns_from n (p ∷ ps) = (n, kind_or_str p) ∷ columns_from (suc n) ps

-- The header's names so far are other names than those of the fields ahead.
abbrev Apart : List Text → List Param → Type 0
Apart pre ps = All (λ q. All (λ h. text_eq (trim h) q.name ≡ false) pre) ps

Apart-next :
    (pre : List Text) (p : Param) (ps : List Param)
    → trim p.name ≡ p.name
    → All (λ q. text_eq p.name q.name ≡ false) ps
    → Apart pre ps
    → Apart (pre ++ p.name ∷ []) ps
Apart-next pre p [] same differ apart = tt
Apart-next pre p (q ∷ ps) same (d, ds) (a, rest) = (extend pre a, Apart-next pre p ps same ds rest)
  where
    extend :
        (hs : List Text)
        → All (λ h. text_eq (trim h) q.name ≡ false) hs
        → All (λ h. text_eq (trim h) q.name ≡ false) (hs ++ p.name ∷ [])
    extend [] none_here = (rw same d, tt)
    extend (h ∷ hs) (e, es) = (e, extend hs es)

position_trimmed-after :
    (pre post : List Text) (name : Text)
    → All (λ h. text_eq (trim h) name ≡ false) pre
    → trim name ≡ name
    → position_trimmed name (pre ++ name ∷ post) ≡ some (length pre)
unfolding position_trimmed
position_trimmed-after [] post name apart same = rw (same, text_eq_refl name)
position_trimmed-after (h ∷ pre) post name (a, rest) same =
    rw (a, position_trimmed-after pre post name rest same)

get_elem?-after : (pre post : List Text) (c : Text) → cell_at (pre ++ c ∷ post) (length pre) ≡ c
get_elem?-after [] post c = refl
get_elem?-after (h ∷ pre) post c = get_elem?-after pre post c

length-snoc : (pre : List Text) (c : Text) → length (pre ++ c ∷ []) ≡ suc (length pre)
length-snoc pre c = omega (arith, length-append pre (c ∷ []))

-- Each field has a kind.
abbrev pub HasKinds : List Param → Type 0
HasKinds ps = All (λ p. field_kind_name p.ty ≡ some (kind_or_str p)) ps

columns_step :
    (header : List Text) (p : Param) (ps : List Param) {n : ℕ} {cols : List (ℕ × Text)}
    → position_trimmed p.name header ≡ some n
    → field_kind_name p.ty ≡ some (kind_or_str p)
    → columns header ps ≡ ok cols
    → columns header (p ∷ ps) ≡ ok ((n, kind_or_str p) ∷ cols)
unfolding columns
columns_step header p ps found kind later = cc

columns-found :
    (pre : List Text) (ps : List Param)
    → Apart pre ps
    → DistinctNames ps
    → HasKinds ps
    → columns (pre ++ param_names ps) ps ≡ ok (columns_from (length pre) ps)
unfolding columns
columns-found pre [] apart distinct kinds = refl
columns-found pre (p ∷ ps) (a, rest) (same, differ, distinct) (k, kinds) =
    let after = pre ++ p.name ∷ [] in
    let later = columns-found after ps (Apart-next pre p ps same differ rest) distinct kinds in
    columns_step (pre ++ p.name ∷ param_names ps) p ps
      (position_trimmed-after pre (param_names ps) p.name a same) k
      (ap (λ h. columns h ps) (sym (append_assoc pre (p.name ∷ []) (param_names ps)))
        ∙ later
        ∙ ap (λ n. ok (columns_from n ps)) (length-snoc pre p.name))

Apart-nil : (ps : List Param) → Apart [] ps
Apart-nil [] = tt
Apart-nil (p ∷ ps) = (tt, Apart-nil ps)

pub columns-header :
    (ps : List Param)
    → DistinctNames ps
    → HasKinds ps
    → columns (param_names ps) ps ≡ ok (columns_from 0 ps)
columns-header ps distinct kinds = columns-found [] ps (Apart-nil ps) distinct kinds

module _ (f : FloatText) where
  read_cells_step :
      (row : List Text) (i : ℕ) (kind : Text) (cols : List (ℕ × Text)) {v : Value} {vs : Values}
      → parse_cell f (cell_at row i) kind ≡ ok v
      → read_cells f row cols ≡ ok vs
      → read_cells f row ((i, kind) ∷ cols) ≡ ok (cons v vs)
  unfolding read_cells
  read_cells_step row i kind cols here later = rw (here, later)

  read_cells-cells_of :
      (pre : List Text) (ps : List Param) (vs : Values)
      → FitsRow f ps vs
      → read_cells f (pre ++ cells_of f ps vs) (columns_from (length pre) ps) ≡ ok vs
  unfolding read_cells cells_of
  read_cells-cells_of pre [] nil fits = refl
  read_cells-cells_of pre (p ∷ ps) (cons v vs) (fit, fits) =
      let cell = format_cell f v (kind_or_str p) in
      let cells = cells_of f ps vs in
      let later = read_cells-cells_of (pre ++ cell ∷ []) ps vs fits in
      read_cells_step (pre ++ cell ∷ cells) (length pre) (kind_or_str p)
        (columns_from (suc (length pre)) ps)
        (ap (λ c. parse_cell f c (kind_or_str p)) (get_elem?-after pre cells cell)
          ∙ parse_cell-format_cell f v (kind_or_str p) fit)
        (ap (λ row. read_cells f row (columns_from (suc (length pre)) ps))
            (sym (append_assoc pre (cell ∷ []) cells))
          ∙ ap (λ n. read_cells f ((pre ++ cell ∷ []) ++ cells) (columns_from n ps))
              (sym (length-snoc pre cell))
          ∙ later)
  read_cells-cells_of pre [] (cons v vs) fits = absurd fits
  read_cells-cells_of pre (p ∷ ps) nil fits = absurd fits

  length-cells_of :
      (ps : List Param) (vs : Values)
      → FitsRow f ps vs
      → length (cells_of f ps vs) ≡ length (param_names ps)
  unfolding cells_of
  length-cells_of [] nil fits = refl
  length-cells_of (p ∷ ps) (cons v vs) (fit, fits) = ap suc (length-cells_of ps vs fits)
  length-cells_of [] (cons v vs) fits = absurd fits
  length-cells_of (p ∷ ps) nil fits = absurd fits

  pub read_rows-lines_of :
      (name : Text) (ps : List Param) {rows : Values}
      → FitsRows f name ps rows
      → read_rows
          (read_struct f name (columns_from 0 ps))
          (length (param_names ps))
          (lines_of f ps rows)
        ≡ ok rows
  unfolding read_rows lines_of
  read_rows-lines_of name ps no_rows = refl
  read_rows-lines_of name ps (also_row vs rows fit written fits) =
      rw
        (
          written,
          length-cells_of ps vs fit,
          read_cells-cells_of [] ps vs fit,
          read_rows-lines_of name ps fits,
        )
        (ground arith)
