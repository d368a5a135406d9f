-- ===== src/Lsp/Pos.antt =====
-- src/lsp/pos.rs: positions of the compiler (1-based, in characters) and of the protocol (0-based, in
-- UTF-16 or UTF-32 units). The numbers are `u32`, whose additions saturate.
pub mod RoundTrip
use yabumi.Common.{
  ℕ, zero, suc, ◌+◌, ◌-◌, ◌^◌, ◌==◌, min, ltb, leb, Bool, true, false, List, [], ◌∷◌, ◌++◌, take,
  length, if◌then◌else◌, Text,
}
use yabumi.Diagnostics.Position.{Position, Span}

pub data Encoding : Type 0 where
  utf16 utf32 : Encoding

abbrev pub u32_max : ℕ
u32_max = 2 ^ 32 - 1

abbrev pub saturating_add : ℕ → ℕ → ℕ
saturating_add a b = min (a + b) u32_max

abbrev pub char_width : Encoding → ℕ → ℕ
char_width utf16 c = if ltb c 0x10000 then 1 else 2
char_width utf32 c = 1

-- `line.chars().map(width).fold(acc, u32::saturating_add)`
unfoldable pub fold_widths : Encoding → ℕ → Text → ℕ
fold_widths enc acc [] = acc
fold_widths enc acc (c ∷ cs) = fold_widths enc (saturating_add acc (char_width enc c)) cs

unfoldable pub to_lsp_column : Text → ℕ → Encoding → ℕ
unfolding fold_widths
to_lsp_column line requested_column enc = fold_widths enc 0 (take requested_column line)

-- The loop of `from_lsp_column`, with its two counters.
unfoldable pub count_columns : Encoding → ℕ → Text → ℕ → ℕ → ℕ
count_columns enc requested [] column lsp_column = column
count_columns enc requested (c ∷ cs) column lsp_column =
    let next = saturating_add lsp_column (char_width enc c) in
    let rest = count_columns enc requested cs (saturating_add column 1) next in
    if ltb requested next then column else rest

unfoldable pub from_lsp_column : Text → ℕ → Encoding → ℕ
unfolding count_columns
from_lsp_column line requested_column enc = count_columns enc requested_column line 0 0

-- `text.split('\n')`: the first line, and the others.
unfoldable pub split_lines : Text → Text × List Text
split_lines [] = ([], [])
split_lines (c ∷ cs) =
    let (line, lines) = split_lines cs in if c == 10 then ([], line ∷ lines) else (c ∷ line, lines)

-- `line.strip_suffix('\r').unwrap_or(line)`
unfoldable pub strip_carriage_return : Text → Text
strip_carriage_return [] = []
strip_carriage_return (c ∷ []) = if c == 13 then [] else c ∷ []
strip_carriage_return (c ∷ d ∷ cs) = c ∷ strip_carriage_return (d ∷ cs)

-- The loop of `line_at`, at the line `index`.
unfoldable pub find_line : ℕ → ℕ → Text → List Text → ℕ × Text
unfolding strip_carriage_return
find_line requested index line [] = (index, strip_carriage_return line)
find_line requested index line (next ∷ lines) =
    if leb requested index
    then (index, strip_carriage_return line)
    else find_line requested (min (suc index) u32_max) next lines

unfoldable pub line_at : Text → ℕ → ℕ × Text
unfolding find_line split_lines
line_at s requested_line =
    let (line, lines) = split_lines s in find_line requested_line 0 line lines

unfoldable pub to_lsp_pos : Text → Position → Encoding → ℕ × ℕ
unfolding line_at to_lsp_column
to_lsp_pos s pos enc =
    let (line, line_text) = line_at s (pos.line - 1) in
    (line, to_lsp_column line_text (pos.col - 1) enc)

unfoldable pub from_lsp_pos : Text → ℕ → ℕ → Encoding → Position
unfolding line_at from_lsp_column
from_lsp_pos s line character enc =
    let (found, line_text) = line_at s line in
    record {
      line = saturating_add found 1;
      col = saturating_add (from_lsp_column line_text character enc) 1;
    }

unfoldable pub span_to_range : Text → Span → Encoding → (ℕ × ℕ) × (ℕ × ℕ)
unfolding to_lsp_pos
span_to_range s span enc = (to_lsp_pos s span.start enc, to_lsp_pos s span.end enc)
