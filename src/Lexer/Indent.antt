-- ===== src/Lexer/Indent.antt =====
-- src/lexer/mod.rs: `handle_indent_transition` and the closing of the levels at the end. The stack of
-- levels has its top in front.
pub mod Laws
pub mod Transition
pub mod Run
use yabumi.Common.{
  ℕ, ◌+◌, ◌^◌, ◌%◌, ◌==◌, ltb, leb, Bool, true, false, List, [], ◌∷◌, ◌++◌, if◌then◌else◌, Text,
  text,
}
use yabumi.Diagnostics.Codes.{indent_mismatch, tab_character}
use yabumi.Diagnostics.Diagnostic.{Diagnostic}
use yabumi.Diagnostics.Position.{Position, Span, FileId}
use yabumi.Lexer.Token.{TokenKind, Token, newline, indent, dedent, eof}

-- The fields of `Lexer` that these operations read or write; the position is the cursor's.
pub record Lexer : Type 0 where
  pub file : FileId
  pub position : Position
  pub indent_stack : List ℕ
  pub tokens : List Token
  pub diagnostics : List Diagnostic

abbrev structural : Lexer → TokenKind → Token
structural l kind = record {
  kind = kind;
  span = record { file = l.file; start = l.position; end = l.position };
}

abbrev pub push_structural : TokenKind → Lexer → Lexer
push_structural kind l = record l { tokens = l.tokens ++ structural l kind ∷ [] }

abbrev pub mismatch : FileId → Position → Text → Diagnostic
mismatch file at message = record {
  code = indent_mismatch;
  span = record { file = file; start = at; end = at };
  message = message;
}

abbrev pub report : Position → Text → Lexer → Lexer
report at message l = record l { diagnostics = l.diagnostics ++ mismatch l.file at message ∷ [] }

-- The loop of the case `Less`: the levels above `n` are popped.
unfoldable pub close_above : ℕ → List ℕ → Lexer → Lexer
close_above n [] l = record l { indent_stack = [] }
close_above n (top ∷ below) l =
    let closed = close_above n below (push_structural dedent l) in
    if leb top n then record l { indent_stack = top ∷ below } else closed

abbrev pub top_or_zero : List ℕ → ℕ
top_or_zero [] = 0
top_or_zero (top ∷ below) = top

abbrev pub is_top : ℕ → List ℕ → Bool
is_top n [] = false
is_top n (top ∷ below) = top == n

abbrev pub open_level : ℕ → Lexer → Lexer
open_level n l = record (push_structural indent l) { indent_stack = n ∷ l.indent_stack }

abbrev pub unmatched : Text
unmatched = text "this indentation amount does not match any existing indent level (D-SYN-01)"

-- What follows the loop.
abbrev pub settle : ℕ → Position → Lexer → Lexer
settle n at l = if is_top n l.indent_stack then l else report at unmatched l

abbrev pub dedent_to : ℕ → Position → Lexer → Lexer
dedent_to n at l = settle n at (close_above n l.indent_stack l)

abbrev pub increase : Text
increase = text "an indent increase is allowed only by +4 relative to the previous line (D-SYN-01)"

-- The match on the order of `n` and the top level; `top + 4` is a `u32`.
abbrev pub compare_indent : ℕ → ℕ → Position → Lexer → Lexer
compare_indent top n at l =
    if n == top
    then l
    else if ltb top n
    then (if n == (top + 4) % 2 ^ 32 then open_level n l else report at increase l)
    else dedent_to n at l

unfoldable pub handle_indent_transition : ℕ → Bool → Position → Lexer → Lexer
unfolding close_above
handle_indent_transition n have_logical_line at l =
    let line = if have_logical_line then push_structural newline l else l in
    compare_indent (top_or_zero line.indent_stack) n at line

-- The loop at the end of the text, over the levels above the lowest.
unfoldable pub close_all : List ℕ → Lexer → Lexer
close_all [] l = record l { indent_stack = [] }
close_all (top ∷ []) l = record l { indent_stack = top ∷ [] }
close_all (top ∷ next ∷ below) l = close_all (next ∷ below) (push_structural dedent l)

unfoldable pub close_file : Lexer → Lexer
unfolding close_all
close_file l = push_structural eof (close_all l.indent_stack l)

-- A tab in the indentation of a line ends the run at once: the levels stay open, and there is no `Eof`.
unfoldable pub abort_on_tab : Position → Lexer → Lexer
abort_on_tab at l = record l {
  diagnostics =
      l.diagnostics
      ++ record {
        code = tab_character;
        span = record { file = l.file; start = at; end = at };
        message = text "a tab character is mixed into the indentation (D-SYN-01)";
      }
        ∷ [];
}
