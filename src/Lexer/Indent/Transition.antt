-- ===== src/Lexer/Indent/Transition.antt =====
-- What `handle_indent_transition` does to balanced levels.
use yabumi.Common.{
  List, ◌-◌, ◌≤◌, append-nil, append_assoc, ltb→lt, ℕ, zero, suc, ◌+◌, ◌*◌, ◌^◌, ◌%◌, ◌==◌, ◌<◌,
  ==_iff, ltb, Bool, true, false, [], ◌∷◌, ◌++◌, ◌≡◌, ◌≢◌, ◌⊎◌, inl, inr, refl, sym, ◌∙◌, ap, ap₂,
  subst, arith, Bool-cases, Text,
}
use yabumi.Diagnostics.Position.{Position}
use yabumi.Lexer.Token.{TokenKind, newline, indent, dedent}
use yabumi.Lexer.Indent.{
  mismatch, Lexer, push_structural, close_above, report, open_level, dedent_to, settle, unmatched,
  top_or_zero, is_top, increase, compare_indent, handle_indent_transition,
}
use yabumi.Diagnostics.Codes.{indent_mismatch}
use yabumi.Diagnostics.Diagnostic.{Diagnostic}
use yabumi.Lexer.Indent.Laws.{
  kinds, kinds-append, repeated, levels, opening, closing, Balanced, Closed, opens-push,
  closes-push, close_above-Closed,
}

-- The depth that a line at `n` columns leads to from the depth `d`: it opens one level if it is at the next
-- one, closes those above it if it is not further in, and else leaves the depth.
abbrev pub Leads : ℕ → ℕ → ℕ → Type 0
Leads n d depth =
    (n ≡ 4 * suc d → depth ≡ suc d)
    × (n ≤ 4 * d → (4 * depth ≤ n) × (n < 4 * suc depth))
    × (4 * d < n → n ≢ 4 * suc d → depth ≡ d)

-- The tokens: an end of line behind a logical line, then one for each level opened or closed.
abbrev pub line_end : Bool → List TokenKind
line_end true = newline ∷ []
line_end false = []

abbrev pub moves : ℕ → ℕ → List TokenKind
moves d depth = repeated indent (depth - d) ++ repeated dedent (d - depth)

-- A report of a mismatch at the position.
abbrev pub Mismatch : Position → Diagnostic → Type 0
Mismatch at x = (x.code ≡ indent_mismatch) × (x.span.start ≡ at) × (x.span.end ≡ at)

-- What one line does: the depth after it, the tokens, and one report where the line is at no level.
pub record Moved (n d : ℕ) (have_logical_line : Bool) (at : Position) (l after : Lexer)
    : Type 0 where
  pub depth : ℕ
  pub balanced : Balanced depth after
  pub leads : Leads n d depth
  pub tokens : kinds after.tokens ≡ kinds l.tokens ++ (line_end have_logical_line ++ moves d depth)
  pub reported :
      ((n ≡ 4 * depth) × (after.diagnostics ≡ l.diagnostics))
      ⊎ ((n ≢ 4 * depth)
          × (x : Diagnostic) × (after.diagnostics ≡ l.diagnostics ++ x ∷ [])
          × Mismatch at x)

top-levels : (d : ℕ) → top_or_zero (levels d) ≡ 4 * d
top-levels zero = refl
top-levels (suc d) = refl

is_top-levels : (n d : ℕ) → is_top n (levels d) ≡ (4 * d == n)
is_top-levels n zero = refl
is_top-levels n (suc d) = refl

moves-stay : (d : ℕ) → moves d d ≡ []
moves-stay d = let e : d - d ≡ 0 = omega arith in rw e refl

moves-open : (d : ℕ) → moves d (suc d) ≡ indent ∷ []
moves-open d =
    let e : suc d - d ≡ 1 = omega arith in let e' : d - suc d ≡ 0 = omega arith in rw (e, e') refl

moves-close : (d depth popped : ℕ) → popped + depth ≡ d → moves d depth ≡ repeated dedent popped
moves-close d depth popped h =
    let e : depth - d ≡ 0 = omega arith in
    let e' : d - depth ≡ popped = omega arith in rw (e, e') refl

module _ (n d depth : ℕ) (at : Position) {l after : Lexer} (balanced : Balanced depth after)
    (same : after.diagnostics ≡ l.diagnostics) (leads : Leads n d depth)
    (tokens : kinds after.tokens ≡ kinds l.tokens ++ moves d depth) where
  at_level : n ≡ 4 * depth → Moved n d false at l after
  at_level e = record {
    depth = depth;
    balanced = balanced;
    leads = leads;
    tokens = tokens;
    reported = inl (e, same);
  }

  off_level : (message : Text) → n ≢ 4 * depth → Moved n d false at l (report at message after)
  off_level message differ = record {
    depth = depth;
    balanced = record { stack = balanced.stack; balance = balanced.balance };
    leads = leads;
    tokens = tokens;
    reported = inr (
      differ,
      mismatch after.file at message,
      ap (λ ds. ds ++ mismatch after.file at message ∷ []) same,
      (refl, refl, refl),
    );
  }

-- A token of another kind changes no level.
pushed-Balanced :
    (kind : TokenKind) (d : ℕ) (l : Lexer)
    → Balanced d l
    → opening kind ≡ closing kind
    → Balanced d (push_structural kind l)
pushed-Balanced kind d l balanced e = record {
  stack = balanced.stack;
  balance = omega (arith, opens-push kind l, closes-push kind l, balanced.balance, e);
}

open_level-Balanced :
    (n d : ℕ) (l : Lexer) → Balanced d l → n ≡ 4 * suc d → Balanced (suc d) (open_level n l)
open_level-Balanced n d l balanced e = record {
  stack = ap₂ ◌∷◌ e balanced.stack;
  balance = omega (arith, opens-push indent l, closes-push indent l, balanced.balance);
}

Closed-Leads : (n d : ℕ) (l after : Lexer) (c : Closed n d l after) → n < 4 * d → Leads n d c.depth
Closed-Leads n d l after c less =
    (λ e. absurd (omega arith), λ le. (c.low, within c.high), λ more. absurd (omega arith))
  where
    within : (c.depth ≡ d) ⊎ (n < 4 * suc c.depth) → n < 4 * suc c.depth
    within (inl e) = omega arith
    within (inr lt) = lt

settle-Moved :
    (n d : ℕ) (at : Position) (l after : Lexer)
    → n < 4 * d
    → Closed n d l after
    → Moved n d false at l (settle n at after)
settle-Moved n d at l after less closed =
    let tops : is_top n after.indent_stack ≡ (4 * closed.depth == n) =
      ap (is_top n) closed.balanced.stack ∙ is_top-levels n closed.depth in
    let leads = Closed-Leads n d l after closed less in
    let tokens =
      closed.tokens
      ∙ ap (λ ks. kinds l.tokens ++ ks)
          (sym (moves-close d closed.depth closed.popped closed.fewer)) in
    elim (Bool-cases (4 * closed.depth == n)) [
      | inl same ↦
          rw (tops, same)
            (at_level n d closed.depth at closed.balanced closed.same leads tokens
              (ground (arith, same)))
      | inr differ ↦
          rw (tops, differ)
            (off_level n d closed.depth at closed.balanced closed.same leads tokens unmatched
              (ground (arith, differ)))
    ]

dedent_to-Moved :
    (n d : ℕ) (at : Position) (l : Lexer)
    → n < 4 * d
    → Balanced d l
    → Moved n d false at l (dedent_to n at l)
dedent_to-Moved n d at l less balanced =
    subst (λ stack. Moved n d false at l (settle n at (close_above n stack l))) (sym balanced.stack)
      (settle-Moved n d at l _ less (close_above-Closed n d l balanced.balance))

-- No token is added where the depth stays.
no_tokens : (d : ℕ) (l : Lexer) → kinds l.tokens ≡ kinds l.tokens ++ moves d d
no_tokens d l = rw (moves-stay d) (sym (append-nil (kinds l.tokens)))

compare_indent-Moved :
    (n d : ℕ) (at : Position) (l : Lexer)
    → n < 2 ^ 32
    → Balanced d l
    → Moved n d false at l (compare_indent (4 * d) n at l)
compare_indent-Moved n d at l small balanced = elim (Bool-cases (n == 4 * d)) [
  | inl same ↦
      let e = (==_iff n (4 * d)).0 same in
      rw same (
        at_level n d d at balanced refl
          (λ x. absurd (omega arith), λ x. (omega arith, omega arith), λ x y. refl) (no_tokens d l)
          e)
  | inr differ ↦ elim (Bool-cases (ltb (4 * d) n)) [
    | inl more ↦ elim (Bool-cases (n == (4 * d + 4) % 2 ^ 32)) [
      | inl next ↦
          let e : n ≡ 4 * suc d = ground arith in
          rw (differ, more, next)
            (at_level n d (suc d) at (open_level-Balanced n d l balanced e) refl
              (λ x. refl, λ x. absurd (omega arith), λ x y. absurd (y e))
              (rw (moves-open d) (kinds-append l.tokens _)) e)
      | inr other ↦
          let far : n ≢ 4 * suc d = ground arith in
          let further = ltb→lt (4 * d) n more in
          rw (differ, more, other)
            (off_level n d d at balanced refl
              (λ x. absurd (far x), λ x. absurd (omega arith), λ x y. refl) (no_tokens d l) increase
              (ground arith))
    ]
    | inr less ↦ rw (differ, less) (dedent_to-Moved n d at l (ground arith) balanced)
  ]
]

at_top-Moved :
    (n d : ℕ) (at : Position) (l : Lexer)
    → n < 2 ^ 32
    → Balanced d l
    → Moved n d false at l (compare_indent (top_or_zero l.indent_stack) n at l)
at_top-Moved n d at l small balanced =
    subst (λ top. Moved n d false at l (compare_indent top n at l))
      (sym (ap top_or_zero balanced.stack ∙ top-levels d))
      (compare_indent-Moved n d at l small balanced)

-- A transition, for a line at `n` columns below 2^32, from `d` open levels, whose stack holds the multiples
-- of four: a line at the next level opens it, a line no further in than the top closes the levels above it,
-- and any other line leaves the depth; the stack holds the multiples of four up to the depth reached,
-- which is the number of indent tokens that no dedent token has closed. The tokens are an end of line,
-- behind a logical line, and one indent or dedent for each level opened or closed. Nothing is reported if
-- the line is at that depth, and one indentation mismatch at the line's position if it is not.
pub handle_indent_transition-Moved :
    (n d : ℕ) (have_logical_line : Bool) (at : Position) (l : Lexer)
    → n < 2 ^ 32
    → Balanced d l
    → Moved n d have_logical_line at l (handle_indent_transition n have_logical_line at l)
unfolding handle_indent_transition
handle_indent_transition-Moved n d true at l small balanced =
    let line = push_structural newline l in
    let moved = at_top-Moved n d at line small (pushed-Balanced newline d l balanced refl) in
    record {
      depth = moved.depth;
      balanced = moved.balanced;
      leads = moved.leads;
      tokens =
          moved.tokens
          ∙ ap (λ ks. ks ++ moves d moved.depth) (kinds-append l.tokens _)
          ∙ append_assoc (kinds l.tokens) (newline ∷ []) (moves d moved.depth);
      reported = moved.reported;
    }
handle_indent_transition-Moved n d false at l small balanced = at_top-Moved n d at l small balanced
