-- ===== src/Ast/Pattern.antt =====
-- src/ast/pattern.rs: match patterns. A 64-bit float stands as its bit pattern, a number.
use yabumi.Common.{ℕ, Bool, List, Text}
use yabumi.Common.Int.{ℤ}
use yabumi.Diagnostics.Position.{Span}

-- `NodeId` of src/ast/mod.rs.
abbrev pub NodeId : Type 0
NodeId = ℕ

-- `f64`, as its bits.
abbrev pub F64 : Type 0
F64 = ℕ

pub data LiteralPat : Type 0 where
  int : ℤ → LiteralPat
  float : F64 → LiteralPat
  bool : Bool → LiteralPat
  str : Text → LiteralPat

pub data SubPattern : Type 0 where
  literal : LiteralPat → Span → SubPattern
  bare_ident : Text → NodeId → Span → SubPattern
  wildcard : Span → SubPattern

pub data Pattern : Type 0 where
  literal : LiteralPat → Span → Pattern
  bare_ident : Text → NodeId → Span → Pattern
  wildcard : Span → Pattern
  variant : Text → List SubPattern → Span → Pattern
  tuple : List SubPattern → Span → Pattern
