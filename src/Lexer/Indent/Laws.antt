-- ===== src/Lexer/Indent/Laws.antt =====
-- The levels of the indentation, the counts of indent and dedent tokens, and the loop that closes levels.
use yabumi.Common.{
  ℕ, zero, suc, ◌+◌, ◌*◌, ◌≤◌, ◌<◌, leb, leb→le, true, false, List, [], ◌∷◌, ◌++◌, ◌≡◌, ◌⊎◌, inl,
  inr, refl, ◌∙◌, ap, sym, append-nil, append_assoc, arith, Bool-cases,
}
use yabumi.Lexer.Token.{TokenKind, Token, indent, dedent}
use yabumi.Lexer.Indent.{Lexer, push_structural, close_above}

-- The stack of `d` levels above the lowest.
abbrev pub levels : ℕ → List ℕ
levels zero = 0 ∷ []
levels (suc d) = 4 * suc d ∷ levels d

abbrev pub opening : TokenKind → ℕ
opening indent = 1
opening _ = 0

abbrev pub closing : TokenKind → ℕ
closing dedent = 1
closing _ = 0

-- How many indent tokens, and how many dedent tokens.
abbrev pub opens : List Token → ℕ
opens [] = 0
opens (t ∷ ts) = opening t.kind + opens ts

abbrev pub closes : List Token → ℕ
closes [] = 0
closes (t ∷ ts) = closing t.kind + closes ts

-- There are `d` open levels, each with its indent token.
pub record Balanced (d : ℕ) (l : Lexer) : Type 0 where
  pub stack : l.indent_stack ≡ levels d
  pub balance : opens l.tokens ≡ closes l.tokens + d

abbrev pub kinds : List Token → List TokenKind
kinds [] = []
kinds (t ∷ ts) = t.kind ∷ kinds ts

pub kinds-append : (ts us : List Token) → kinds (ts ++ us) ≡ kinds ts ++ kinds us
kinds-append [] us = refl
kinds-append (t ∷ ts) us = ap (λ ks. t.kind ∷ ks) (kinds-append ts us)

abbrev pub repeated : TokenKind → ℕ → List TokenKind
repeated kind zero = []
repeated kind (suc n) = kind ∷ repeated kind n

pub opens-append : (ts us : List Token) → opens (ts ++ us) ≡ opens ts + opens us
opens-append [] us = omega arith
opens-append (t ∷ ts) us = omega (arith, opens-append ts us)

pub closes-append : (ts us : List Token) → closes (ts ++ us) ≡ closes ts + closes us
closes-append [] us = omega arith
closes-append (t ∷ ts) us = omega (arith, closes-append ts us)

-- After a structural token is pushed.
pub opens-push :
    (kind : TokenKind) (l : Lexer)
    → opens (push_structural kind l).tokens ≡ opens l.tokens + opening kind
opens-push kind l = opens-append l.tokens _ ∙ omega arith

pub closes-push :
    (kind : TokenKind) (l : Lexer)
    → closes (push_structural kind l).tokens ≡ closes l.tokens + closing kind
closes-push kind l = closes-append l.tokens _ ∙ omega arith

-- The loop's end: the depth that is left, what bounds it, and a dedent token for each level popped.
pub record Closed (n d : ℕ) (l after : Lexer) : Type 0 where
  pub depth : ℕ
  pub balanced : Balanced depth after
  pub same : after.diagnostics ≡ l.diagnostics
  pub popped : ℕ
  pub fewer : popped + depth ≡ d
  pub tokens : kinds after.tokens ≡ kinds l.tokens ++ repeated dedent popped
  pub low : 4 * depth ≤ n
  pub high : (depth ≡ d) ⊎ (n < 4 * suc depth)

pub le-leb : (a b : ℕ) → a ≤ b → leb a b ≡ true
le-leb a b h = ground arith

above :
    (n d depth : ℕ)
    → leb (4 * suc d) n ≡ false
    → (depth ≡ d) ⊎ (n < 4 * suc depth)
    → n < 4 * suc depth
above n d depth h (inl e) = ground arith
above n d depth h (inr lt) = lt

pub close_above-Closed :
    (n d : ℕ) (l : Lexer)
    → opens l.tokens ≡ closes l.tokens + d
    → Closed n d l (close_above n (levels d) l)
unfolding close_above
close_above-Closed n zero l h = rw (le-leb 0 n (omega arith)) (record {
  depth = 0;
  balanced = record { stack = refl; balance = h };
  same = refl;
  popped = 0;
  fewer = refl;
  tokens = sym (append-nil (kinds l.tokens));
  low = omega arith;
  high = inl refl;
})
close_above-Closed n (suc d) l h = elim (Bool-cases (leb (4 * suc d) n)) [
  | inl stay ↦ rw stay (record {
    depth = suc d;
    balanced = record { stack = refl; balance = h };
    same = refl;
    popped = 0;
    fewer = omega arith;
    tokens = sym (append-nil (kinds l.tokens));
    low = leb→le (4 * suc d) n stay;
    high = inl refl;
  })
  | inr leave ↦
      let fewer : opens (push_structural dedent l).tokens
          ≡ closes (push_structural dedent l).tokens + d =
        omega (arith, opens-push dedent l, closes-push dedent l) in
      let rest = close_above-Closed n d (push_structural dedent l) fewer in
      rw leave (record {
        depth = rest.depth;
        balanced = rest.balanced;
        same = rest.same;
        popped = suc rest.popped;
        fewer = omega (arith, rest.fewer);
        tokens =
            rest.tokens
            ∙ ap (λ ks. ks ++ repeated dedent rest.popped) (kinds-append l.tokens _)
            ∙ append_assoc (kinds l.tokens) (dedent ∷ []) (repeated dedent rest.popped);
        low = rest.low;
        high = inr (above n d rest.depth leave rest.high);
      })
]
