-- ===== src/Lexer/Indent/Run.antt =====
-- src/lexer/mod.rs: how the run of the lexer over a whole text ends.
use yabumi.Common.{
  append-nil, append_assoc, ℕ, zero, suc, ◌+◌, ◌^◌, ◌<◌, Bool, [], ◌∷◌, ◌++◌, ◌≡◌, ◌⊎◌, inl, inr,
  refl, sym, ◌∙◌, ap, subst, arith,
}
use yabumi.Diagnostics.Position.{Position}
use yabumi.Lexer.Token.{Token, dedent, eof}
use yabumi.Lexer.Indent.{Lexer, push_structural, handle_indent_transition, close_all, close_file}
use yabumi.Diagnostics.Codes.{tab_character}
use yabumi.Diagnostics.Diagnostic.{Diagnostic}
use yabumi.Lexer.Indent.Laws.{
  kinds, kinds-append, repeated, levels, opening, closing, opens, closes, Balanced, opens-append,
  closes-append, opens-push, closes-push,
}
use yabumi.Lexer.Indent.{abort_on_tab}
use yabumi.Lexer.Indent.Transition.{handle_indent_transition-Moved}

close_all-Balanced :
    (d : ℕ) (l : Lexer)
    → opens l.tokens ≡ closes l.tokens + d
    → Balanced 0 (close_all (levels d) l)
      × (kinds (close_all (levels d) l).tokens ≡ kinds l.tokens ++ repeated dedent d)
unfolding close_all
close_all-Balanced zero l h =
    (record { stack = refl; balance = h }, sym (append-nil (kinds l.tokens)))
close_all-Balanced (suc zero) l h = (
  record { stack = refl; balance = omega (arith, opens-push dedent l, closes-push dedent l, h) },
  kinds-append l.tokens _,
)
close_all-Balanced (suc (suc d)) l h =
    let (balanced, tokens) =
      close_all-Balanced (suc d) (push_structural dedent l)
        (omega (arith, opens-push dedent l, closes-push dedent l, h)) in
    (
      balanced,
      tokens
          ∙ ap (λ ks. ks ++ repeated dedent (suc d)) (kinds-append l.tokens _)
          ∙ append_assoc (kinds l.tokens) (dedent ∷ []) (repeated dedent (suc d)),
    )

-- What the lexer does between the start of a text and the end of the run: a transition at a line's start,
-- a token of the line, a report, or a move of the cursor.
pub data Reaches (start : Lexer) : Lexer → Type 0 where
  here : Reaches start start
  transition :
      {l : Lexer} (n : ℕ) (have_logical_line : Bool) (at : Position)
      → n < 2 ^ 32
      → Reaches start l
      → Reaches start (handle_indent_transition n have_logical_line at l)
  scanned :
      {l : Lexer} (t : Token)
      → opening t.kind ≡ 0
      → closing t.kind ≡ 0
      → Reaches start l
      → Reaches start (record l { tokens = l.tokens ++ t ∷ [] })
  reported :
      {l : Lexer} (x : Diagnostic)
      → Reaches start l
      → Reaches start (record l { diagnostics = l.diagnostics ++ x ∷ [] })
  moved :
      {l : Lexer} (position : Position)
      → Reaches start l
      → Reaches start (record l { position = position })

-- The two ends of a run.
pub data Ends (start : Lexer) : Lexer → Type 0 where
  end_of_text : {l : Lexer} → Reaches start l → Ends start (close_file l)
  leading_tab : {l : Lexer} (at : Position) → Reaches start l → Ends start (abort_on_tab at l)

Reaches-Balanced : {start l : Lexer} → Balanced 0 start → Reaches start l → (d : ℕ) × Balanced d l
Reaches-Balanced b here = (0, b)
Reaches-Balanced b (transition n have_logical_line at small r) =
    let (d, before) = Reaches-Balanced b r in
    let m = handle_indent_transition-Moved n d have_logical_line at _ small before in
    (m.depth, m.balanced)
Reaches-Balanced b (scanned {l = l} t o c r) =
    let (d, before) = Reaches-Balanced b r in
    (
      d,
      record {
        stack = before.stack;
        balance = omega (
          arith,
          opens-append l.tokens (t ∷ []),
          closes-append l.tokens (t ∷ []),
          o,
          c,
          before.balance,
        );
      },
    )
Reaches-Balanced b (reported x r) =
    let (d, before) = Reaches-Balanced b r in
    (d, record { stack = before.stack; balance = before.balance })
Reaches-Balanced b (moved position r) =
    let (d, before) = Reaches-Balanced b r in
    (d, record { stack = before.stack; balance = before.balance })

-- The end of a text: a dedent token for each open level and the end of the file are added, the stack has its
-- lowest level alone, and dedent tokens are as many as indent tokens.
pub record Complete (l after : Lexer) : Type 0 where
  pub depth : ℕ
  pub levels_open : Balanced depth l
  pub tokens : kinds after.tokens ≡ kinds l.tokens ++ (repeated dedent depth ++ eof ∷ [])
  pub stack : after.indent_stack ≡ 0 ∷ []
  pub balance : opens after.tokens ≡ closes after.tokens

-- The end at a tab: one report of it is added, and the tokens and the open levels stay.
pub record Aborted (l after : Lexer) : Type 0 where
  pub depth : ℕ
  pub levels_open : Balanced depth l
  pub tab : Diagnostic
  pub last : after.diagnostics ≡ l.diagnostics ++ tab ∷ []
  pub code : tab.code ≡ tab_character
  pub tokens : after.tokens ≡ l.tokens
  pub stack : after.indent_stack ≡ l.indent_stack

close_file-Complete : (d : ℕ) (l : Lexer) → Balanced d l → Complete l (close_file l)
unfolding close_file
close_file-Complete d l b =
    subst (λ stack. Complete l (push_structural eof (close_all stack l))) (sym b.stack)
      (let (closed, tokens) = close_all-Balanced d l b.balance in
        record {
          depth = d;
          levels_open = b;
          tokens =
              kinds-append (close_all (levels d) l).tokens _
              ∙ ap (λ ks. ks ++ eof ∷ []) tokens
              ∙ append_assoc (kinds l.tokens) (repeated dedent d) (eof ∷ []);
          stack = closed.stack;
          balance = omega (
            arith,
            opens-push eof (close_all (levels d) l),
            closes-push eof (close_all (levels d) l),
            closed.balance,
          );
        })

abort_on_tab-Aborted :
    (d : ℕ) (at : Position) (l : Lexer) → Balanced d l → Aborted l (abort_on_tab at l)
unfolding abort_on_tab
abort_on_tab-Aborted d at l b = record {
  depth = d;
  levels_open = b;
  tab = _;
  last = refl;
  code = refl;
  tokens = refl;
  stack = refl;
}

-- A run of the lexer from a start with no open level ends in one of two ways, from what it has reached. The
-- stack there holds the multiples of four up to the number of indent tokens that no dedent token has
-- closed. At the end of the text a dedent token closes each of these levels, so that dedent tokens are as
-- many as indent tokens, and the end of the file is the last token. At a tab in the indentation of a line
-- one report of it is added, no token, and the open levels stay open.
pub Ends-cases :
    (start after : Lexer)
    → Balanced 0 start
    → Ends start after
    → (l : Lexer) × Reaches start l × (Complete l after ⊎ Aborted l after)
Ends-cases start _ b (end_of_text {l = l} r) =
    let (d, before) = Reaches-Balanced b r in (l, r, inl (close_file-Complete d l before))
Ends-cases start _ b (leading_tab {l = l} at r) =
    let (d, before) = Reaches-Balanced b r in (l, r, inr (abort_on_tab-Aborted d at l before))
