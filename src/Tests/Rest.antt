-- ===== src/Tests/Rest.antt =====
-- The theorems of Stdlib, Lexer and Lsp, and those on assignments, at concrete inputs.
use yabumi.Common.{
  ◌⊎◌, suc, min, length, ◌++◌, ◌-◌, true, false, List, [], ◌∷◌, none, Text, text, text_eq, ◌≡◌,
  refl, arith,
}
use yabumi.Common.Int.{pos}
use yabumi.Common.Result.{ok}
use yabumi.Diagnostics.Position.{Position, Span}
use yabumi.Ast.TypeAnn.{TypeAnn, TypeAnnKind, TypeAnns}
use yabumi.Ast.Decl.{StructDecl, Param}
use yabumi.Eval.Value.{Value, Values, nil, cons, int, str}
use yabumi.Stdlib.{ok_value}
use yabumi.Stdlib.Codec.{FloatText}
use yabumi.Stdlib.Codec.Csv.{parse_csv_rows, encode_lines}
use yabumi.Stdlib.Codec.Csv.RoundTrip.{parse_csv_rows-encode_lines}
use yabumi.Stdlib.Codec.Csv.Table.{encode, decode, field_kind_name, cells_of}
use yabumi.Stdlib.Codec.Csv.Typed.{no_rows, also_row, an_int, a_str}
use yabumi.Stdlib.Codec.Csv.Contract.{decode-encode, decode-encode_blank}
use yabumi.Common.Decimal.{trim}
use yabumi.Lexer.Token.{TokenKind}
use yabumi.Lexer.Indent.{Lexer, handle_indent_transition, close_file}
use yabumi.Lexer.Indent.Laws.{Balanced}
use yabumi.Lexer.Indent.Transition.{Moved, handle_indent_transition-Moved}
use yabumi.Lexer.Indent.Run.{
  Reaches, here, transition, scanned, Complete, Aborted, Ends-cases, end_of_text,
}
use yabumi.Lsp.Pos.{utf16, line_at, to_lsp_pos, from_lsp_pos}
use yabumi.Lsp.Pos.RoundTrip.{from_lsp_pos-to_lsp_pos}

abbrev origin : Position
origin = record { line = 1; col = 1 }

abbrev nowhere : Span
nowhere = record { file = 0; start = origin; end = origin }

-- a,"b" and a text with a line end
abbrev awkward : List (List Text)
awkward = (text "a,\"b\"" ∷ (10 ∷ []) ∷ []) ∷ (text "c" ∷ []) ∷ []

parse_csv_rows-encode_lines_example : parse_csv_rows (encode_lines awkward) ≡ ok awkward
parse_csv_rows-encode_lines_example = parse_csv_rows-encode_lines awkward (tt, (tt, tt))

abbrev float_text : FloatText
float_text = record {
  display = λ x. x ∷ [];
  parse = λ s. none;
  is_nan = λ x. false;
  is_infinite = λ x. false;
}

abbrev field_of : Text → Text → Param
field_of name kind = record {
  name = name;
  ty = TypeAnn.type_ann (TypeAnnKind.named kind TypeAnns.none) nowhere;
  span = nowhere;
}

abbrev user : StructDecl
user = record {
  id = 0;
  name = text "User";
  generics = [];
  fields = field_of (text "name") (text "str") ∷ field_of (text "age") (text "int") ∷ [];
  methods = [];
  span = nowhere;
}

abbrev alice : Values
alice = cons (str (text "al,ice")) (cons (int (pos 30)) nil)

abbrev users : Values
users = cons (Value.struct (text "User") alice) nil

decode-encode_example :
    decode float_text (encode float_text users user) user ≡ ok_value (Value.list users)
unfolding field_kind_name text_eq trim cells_of
decode-encode_example =
    decode-encode float_text user users tt (refl, (refl, tt), (refl, tt, tt)) (refl, (refl, tt))
      (also_row alice nil (a_str (text "al,ice"), (an_int (pos 30) refl, tt)) refl no_rows)

abbrev names : StructDecl
names = record {
  id = 1;
  name = text "Name";
  generics = [];
  fields = field_of (text "name") (text "str") ∷ [];
  methods = [];
  span = nowhere;
}

abbrev bob : Values
bob = cons (Value.struct (text "Name") (cons (str (text "bob")) nil)) nil

-- The empty name in front of `bob` is lost.
decode-encode_blank_example :
    decode float_text
      (encode float_text (cons (Value.struct (text "Name") (cons (str []) nil)) bob) names)
      names
    ≡ ok_value (Value.list bob)
unfolding field_kind_name text_eq trim cells_of
decode-encode_blank_example =
    decode-encode_blank float_text names (cons (str []) nil) bob tt (refl, tt, tt) (refl, tt) refl
      (also_row (cons (str (text "bob")) nil) nil (a_str (text "bob"), tt) refl no_rows)

abbrev lexer : Lexer
lexer = record { file = 0; position = origin; indent_stack = 0 ∷ []; tokens = []; diagnostics = [] }

lexer-Balanced : Balanced 0 lexer
lexer-Balanced = record { stack = refl; balance = refl }

handle_indent_transition-Moved_example :
    Moved 4 0 true origin lexer (handle_indent_transition 4 true origin lexer)
handle_indent_transition-Moved_example =
    handle_indent_transition-Moved 4 0 true origin lexer (omega arith) lexer-Balanced

-- A line, a line that is indented, and its token.
abbrev last : Lexer
last =
    let indented = handle_indent_transition 4 true origin lexer in
    record indented {
      tokens = indented.tokens ++ record { kind = TokenKind.return_word; span = nowhere } ∷ [];
    }

last-Reaches : Reaches lexer last
last-Reaches =
    scanned (record { kind = TokenKind.return_word; span = nowhere }) refl refl
      (transition 4 true origin (omega arith) here)

Ends-cases_example :
    (l : Lexer) × Reaches lexer l × (Complete l (close_file last) ⊎ Aborted l (close_file last))
Ends-cases_example = Ends-cases lexer (close_file last) lexer-Balanced (end_of_text last-Reaches)

abbrev letters : Text
letters = text "ab" ++ 10 ∷ 0x1f600 ∷ text "c"

abbrev behind_smile : Position
behind_smile = record { line = 2; col = 2 }

from_lsp_pos-to_lsp_pos_example :
    let (line, line_text) = line_at letters (behind_smile.line - 1) in
    let (lsp_line, character) = to_lsp_pos letters behind_smile utf16 in
    from_lsp_pos letters lsp_line character utf16
    ≡ record { line = suc line; col = suc (min (behind_smile.col - 1) (length line_text)) }
from_lsp_pos-to_lsp_pos_example = from_lsp_pos-to_lsp_pos letters behind_smile utf16 (omega arith)
