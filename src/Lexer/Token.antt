-- ===== src/Lexer/Token.antt =====
-- src/lexer/token.rs: tokens. `Tokens` is `Vec<Token>`, `Parts` is `Vec<FStringPart>`.
use yabumi.Common.{Text}
use yabumi.Common.Int.{ℤ}
use yabumi.Ast.Pattern.{F64}
use yabumi.Diagnostics.Position.{Span}

mutual
  pub data TokenKind : Type 0 where
    int_literal : ℤ → TokenKind
    float_literal : F64 → TokenKind
    string_literal : Text → TokenKind
    f_string : Parts → TokenKind
    true_word false_word : TokenKind
    ident : Text → TokenKind
    def_word struct_word enum_word if_word else_word match_word return_word var_word : TokenKind
    uses_word par_word and_word or_word not_word in_word underscore module_word : TokenKind
    void_word kw_self : TokenKind
    plus minus star slash percent eq_eq not_eq lt lt_eq gt gt_eq : TokenKind
    eq arrow fat_arrow pipe_op question dot comma colon : TokenKind
    l_paren r_paren l_bracket r_bracket l_brace r_brace : TokenKind
    newline indent dedent eof : TokenKind

  pub data Parts : Type 0 where
    no_parts : Parts
    text_part : Text → Parts → Parts
    expr_part : Tokens → Parts → Parts

  pub data Tokens : Type 0 where
    no_tokens : Tokens
    token : TokenKind → Span → Tokens → Tokens

pub record Token : Type 0 where
  pub kind : TokenKind
  pub span : Span
