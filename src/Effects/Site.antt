-- ===== src/Effects/Site.antt =====
-- src/effects/mod.rs: a call that the walk of a body finds.
use yabumi.Common.{Option, [], ◌∷◌, Bool, any, Text, text, text_eq}
use yabumi.Ast.Expr.{Expr, Args}
use yabumi.Diagnostics.Position.{Span}

pub data CallSite : Type 0 where
  call : Span → Expr → Args → CallSite
  method : Span → Expr → Text → Args → CallSite
  -- the span of the stage, its callee, the source of the pipe and the stage's arguments
  pipe : Span → Expr → Expr → Option Args → CallSite

-- `CallSite::span`
unfoldable pub site_span : CallSite → Span
site_span (call at callee args) = at
site_span (method at receiver name args) = at
site_span (pipe at callee source args) = at

unfoldable pub is_stdlib_hof_method : Text → Bool
is_stdlib_hof_method name = any (text_eq name) (
    text "map"
    ∷ text "filter"
    ∷ text "fold"
    ∷ text "find"
    ∷ text "find_by"
    ∷ text "any"
    ∷ text "all"
    ∷ text "flat_map"
    ∷ text "sort_by"
    ∷ text "par_map"
    ∷ text "par_each"
    ∷ text "each"
    ∷ text "unwrap_or_else"
    ∷ text "map_err"
    ∷ text "and_then"
    ∷ [])
