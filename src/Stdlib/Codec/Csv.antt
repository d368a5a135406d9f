-- ===== src/Stdlib/Codec/Csv.antt =====
-- src/stdlib/codec/csv.rs: comma-separated values. The scanner's variables are a record; the loop is
-- a recursion over the characters, of which a step may take two.
pub mod RoundTrip
pub mod Table
pub mod Typed
pub mod Contract
use yabumi.Common.{
  ℕ, ◌==◌, Bool, true, false, not, ◌&&◌, ◌||◌, any, List, [], ◌∷◌, ◌++◌, Option, some, none,
  if◌then◌else◌, Text, text, text_eq, map,
}
use yabumi.Common.Result.{Result, ok, err}

abbrev comma : ℕ
comma = 44

abbrev quote : ℕ
quote = 34

abbrev newline : ℕ
newline = 10

abbrev carriage_return : ℕ
carriage_return = 13

abbrev pub has_char : ℕ → Text → Bool
has_char c s = any (λ d. c == d) s

-- `s.replace('"', "\"\"")`
unfoldable pub double_quotes : Text → Text
double_quotes [] = []
double_quotes (c ∷ cs) =
    if c == quote then quote ∷ quote ∷ double_quotes cs else c ∷ double_quotes cs

abbrev pub needs_quotes : Text → Bool
needs_quotes s =
    has_char comma s || (has_char quote s || (has_char newline s || has_char carriage_return s))

unfoldable pub escape_csv_field : Text → Text
unfolding double_quotes
escape_csv_field s = if needs_quotes s then quote ∷ (double_quotes s ++ quote ∷ []) else s

pub record Scanner : Type 0 where
  pub rows : List (List Text)
  pub row : List Text
  pub field : Text
  pub in_quotes : Bool
  pub quote_closed : Bool
  pub row_has_content : Bool

abbrev pub start : Scanner
start = record {
  rows = [];
  row = [];
  field = [];
  in_quotes = false;
  quote_closed = false;
  row_has_content = false;
}

-- One round of the loop: it goes on, goes on behind the character that it peeked at, or fails.
pub data Round : Type 0 where
  advance : Scanner → Round
  skip : Scanner → Round
  fail : Text → Round

abbrev pub end_row : Scanner → Scanner
end_row s = record s {
  rows = s.rows ++ (s.row ++ s.field ∷ []) ∷ [];
  row = [];
  field = [];
  row_has_content = false;
  quote_closed = false;
}

abbrev push_char : Scanner → ℕ → Scanner
push_char s c = record s { field = s.field ++ c ∷ [] }

abbrev is_at : ℕ → Option ℕ → Bool
is_at c none = false
is_at c (some d) = c == d

abbrev is_empty : Text → Bool
is_empty [] = true
is_empty (c ∷ cs) = false

abbrev inside : Scanner → ℕ → Option ℕ → Round
inside s c next =
    if c == quote
    then (if is_at quote next
        then skip (push_char s quote)
        else advance (record s { in_quotes = false; quote_closed = true }))
    else advance (push_char s c)

abbrev outside : Scanner → ℕ → Option ℕ → Round
outside s c next =
    if s.quote_closed && not (c == comma || (c == carriage_return || c == newline))
    then fail (text "characters after a closing quote are not allowed")
    else if c == quote
    then (if is_empty s.field && not s.quote_closed
        then advance (record s { in_quotes = true; row_has_content = true })
        else fail (text "quote in an unquoted field"))
    else if c == comma
    then advance (record s {
      row = s.row ++ s.field ∷ [];
      field = [];
      row_has_content = true;
      quote_closed = false;
    })
    else if c == carriage_return
    then (if is_at newline next then skip (end_row s) else advance (end_row s))
    else if c == newline
    then advance (end_row s)
    else advance (record (push_char s c) { row_has_content = true })

unfoldable pub round : Scanner → ℕ → Option ℕ → Round
round s c next = if s.in_quotes then inside s c next else outside s c next

abbrev no_fields : List Text → Bool
no_fields [] = true
no_fields (f ∷ fs) = false

-- What follows the loop.
unfoldable pub finish : Scanner → Result (List (List Text)) Text
finish s =
    if s.in_quotes
    then err (text "quoted field was not closed")
    else if not (is_empty s.field) || (not (no_fields s.row) || s.row_has_content)
    then ok (s.rows ++ (s.row ++ s.field ∷ []) ∷ [])
    else ok s.rows

unfoldable pub scan : Scanner → Text → Result (List (List Text)) Text
unfolding round finish
scan s [] = finish s
scan s (c ∷ []) = elim (round s c none) [
  | advance t ↦ finish t
  | skip t ↦ finish t
  | fail message ↦ err message
]
scan s (c ∷ d ∷ cs) = elim (round s c (some d)) [
  | advance t ↦ scan t (d ∷ cs)
  | skip t ↦ scan t cs
  | fail message ↦ err message
]

unfoldable pub parse_csv_rows : Text → Result (List (List Text)) Text
unfolding scan
parse_csv_rows source = scan start source

-- `cells.join(",")`, for the cells as they are escaped.
unfoldable pub join_escaped : List Text → Text
unfolding escape_csv_field
join_escaped [] = []
join_escaped (c ∷ []) = escape_csv_field c
join_escaped (c ∷ d ∷ cs) = escape_csv_field c ++ comma ∷ join_escaped (d ∷ cs)

-- A line of the output of `encode`.
unfoldable pub encode_line : List Text → Text
unfolding join_escaped
encode_line cells = join_escaped cells ++ newline ∷ []

unfoldable pub encode_lines : List (List Text) → Text
unfolding encode_line
encode_lines [] = []
encode_lines (cells ∷ rest) = encode_line cells ++ encode_lines rest
