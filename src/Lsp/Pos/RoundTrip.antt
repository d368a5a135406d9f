-- ===== src/Lsp/Pos/RoundTrip.antt =====
-- A position in the text goes to the protocol and back.
use yabumi.Common.{
  ℕ, zero, suc, ◌+◌, ◌-◌, ◌*◌, ◌^◌, ◌==◌, ◌≤◌, ◌<◌, min, leb, List, [], ◌∷◌, take, length, Text,
  ◌≡◌, refl, ◌∙◌, ap, arith, Bool-cases, inl, inr,
}
use yabumi.Diagnostics.Position.{Position}
use yabumi.Lsp.Pos.{
  Encoding, utf16, utf32, char_width, saturating_add, fold_widths, to_lsp_column, count_columns,
  from_lsp_column, line_at, find_line, split_lines, strip_carriage_return, to_lsp_pos, from_lsp_pos,
  u32_max,
}

abbrev widths : Encoding → Text → ℕ
widths enc [] = 0
widths enc (c ∷ cs) = char_width enc c + widths enc cs

char_width-bounds : (enc : Encoding) (c : ℕ) → (1 ≤ char_width enc c) × (char_width enc c ≤ 2)
char_width-bounds utf16 c = ground arith
char_width-bounds utf32 c = (omega arith, omega arith)

widths-le : (enc : Encoding) (s : Text) → widths enc s ≤ 2 * length s
widths-le enc [] = omega arith
widths-le enc (c ∷ cs) = omega (arith, (char_width-bounds enc c).1, widths-le enc cs)

fold_widths-widths :
    (enc : Encoding) (acc : ℕ) (s : Text)
    → acc + widths enc s < 2 ^ 32
    → fold_widths enc acc s ≡ acc + widths enc s
unfolding fold_widths
fold_widths-widths enc acc [] h = omega arith
fold_widths-widths enc acc (c ∷ cs) h =
    ground (arith, fold_widths-widths enc (saturating_add acc (char_width enc c)) cs)

count_columns-back :
    (enc : Encoding) (s : Text) (k column lsp : ℕ)
    → lsp + widths enc s < 2 ^ 32
    → column + length s < 2 ^ 32
    → count_columns enc (lsp + widths enc (take k s)) s column lsp ≡ column + min k (length s)
unfolding count_columns
count_columns-back enc [] k column lsp h hc = omega arith
count_columns-back enc (c ∷ cs) zero column lsp h hc = ground (arith, char_width-bounds enc c)
count_columns-back enc (c ∷ cs) (suc k) column lsp h hc =
    ground (arith, count_columns-back enc cs k (suc column) (lsp + char_width enc c))

length-take : (k : ℕ) (s : Text) → length (take k s) ≤ length s
length-take zero s = omega arith
length-take (suc k) [] = omega arith
length-take (suc k) (c ∷ cs) = omega (arith, length-take k cs)

-- A column goes to the protocol and back, clamped to the end of the line.
from_lsp_column-to_lsp_column :
    (enc : Encoding) (line : Text) (column : ℕ)
    → 2 * length line + 1 < 2 ^ 32
    → from_lsp_column line (to_lsp_column line column enc) enc ≡ min column (length line)
unfolding from_lsp_column to_lsp_column
from_lsp_column-to_lsp_column enc line column h =
    ap (λ requested. count_columns enc requested line 0 0)
      (fold_widths-widths enc 0 (take column line)
        (omega (arith, widths-le enc (take column line), length-take column line)))
    ∙ count_columns-back enc line column 0 0 (omega (arith, widths-le enc line)) (omega arith)
    ∙ omega arith

record Found (index : ℕ) (lines : List Text) (requested : ℕ) (line : Text) : Type 0 where
  again :
      find_line (find_line requested index line lines).0 index line lines
      ≡ find_line requested index line lines
  low : index ≤ (find_line requested index line lines).0
  high : (find_line requested index line lines).0 ≤ index + length lines

find_line-Found :
    (requested index : ℕ) (line : Text) (lines : List Text)
    → index + length lines < u32_max
    → Found index lines requested line
unfolding find_line
find_line-Found requested index line [] h = record {
  again = refl;
  low = omega arith;
  high = omega arith;
}
find_line-Found requested index line (next ∷ lines) h =
    let rest = find_line-Found requested (min (suc index) u32_max) next lines (omega arith) in
    elim (Bool-cases (leb requested index)) [
      | inl stop ↦ record {
        again = ground (arith, stop);
        low = ground (arith, stop);
        high = ground (arith, stop);
      }
      | inr go ↦ record {
        again = ground (arith, go, rest.again, rest.low);
        low = ground (arith, go, rest.low);
        high = ground (arith, go, rest.high);
      }
    ]

strip-le : (line : Text) → length (strip_carriage_return line) ≤ length line
unfolding strip_carriage_return
strip-le [] = omega arith
strip-le (c ∷ []) = ground arith
strip-le (c ∷ d ∷ cs) = omega (arith, strip-le (d ∷ cs))

-- The characters of the lines.
abbrev total : List Text → ℕ
total [] = 0
total (line ∷ lines) = length line + total lines

find_line-le :
    (requested index : ℕ) (line : Text) (lines : List Text)
    → length (find_line requested index line lines).1 ≤ length line + total lines
unfolding find_line
find_line-le requested index line [] = omega (arith, strip-le line)
find_line-le requested index line (next ∷ lines) = elim (Bool-cases (leb requested index)) [
  | inl stop ↦ rw stop (omega (arith, strip-le line))
  | inr go ↦ rw go (omega (arith, find_line-le requested (min (suc index) u32_max) next lines))
]

split_lines-le :
    (s : Text)
    → (length (split_lines s).0 + total (split_lines s).1 ≤ length s)
      × (length (split_lines s).1 ≤ length s)
unfolding split_lines
split_lines-le [] = (omega arith, omega arith)
split_lines-le (c ∷ cs) =
    let (chars, count) = split_lines-le cs in
    elim (Bool-cases (c == 10)) [
      | inl break ↦ (ground (arith, break, chars, count), ground (arith, break, chars, count))
      | inr other ↦ (ground (arith, other, chars, count), ground (arith, other, chars, count))
    ]

unclamped : (n : ℕ) → suc n < 2 ^ 32 → min (n + 1) u32_max ≡ suc n
unclamped n h = omega arith

-- For a text of less than 2^31 - 1 characters: a position goes to the protocol and back, in either
-- encoding, as the position that is clamped to the lines of the text and to the end of its line.
pub from_lsp_pos-to_lsp_pos :
    (s : Text) (p : Position) (enc : Encoding)
    → 2 * length s + 2 < 2 ^ 32
    → let (line, line_text) = line_at s (p.line - 1) in
      let (lsp_line, character) = to_lsp_pos s p enc in
      from_lsp_pos s lsp_line character enc
      ≡ record { line = suc line; col = suc (min (p.col - 1) (length line_text)) }
unfolding from_lsp_pos to_lsp_pos line_at
from_lsp_pos-to_lsp_pos s p enc h =
    let line = (split_lines s).0 in
    let lines = (split_lines s).1 in
    let (chars, count) = split_lines-le s in
    let found = find_line-Found (p.line - 1) 0 line lines (omega arith) in
    let t = (find_line (p.line - 1) 0 line lines).1 in
    let short = find_line-le (p.line - 1) 0 line lines in
    let column = from_lsp_column-to_lsp_column enc t (p.col - 1) (omega arith) in
    rw (found.again, column)
      (λ i. record {
        line = unclamped (find_line (p.line - 1) 0 line lines).0 (omega (arith, found.high)) i;
        col = unclamped (min (p.col - 1) (length t)) (omega arith) i;
      })
