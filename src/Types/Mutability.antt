-- ===== src/Types/Mutability.antt =====
-- src/types/mutability.rs: only a place whose root is a `var` binding may be written.
pub mod Laws
use yabumi.Common.{
  Bool, true, false, not, List, [], ◌∷◌, ◌++◌, Option, some, none, if◌then◌else◌, Text, text,
}
use yabumi.Ast.Expr.{Expr, ExprKind}
use yabumi.Diagnostics.Codes.{immutable_mutation}
use yabumi.Diagnostics.Diagnostic.{Diagnostic}
use yabumi.Diagnostics.Position.{Span}
use yabumi.Types.Env.{Binding, TypeEnv, lookup}

unfoldable mutual
  pub root_ident : Expr → Option Text
  root_ident (Expr.expr id kind at) = root_of kind

  -- The match on the expression's kind.
  pub root_of : ExprKind → Option Text
  root_of (ExprKind.ident name) = some name
  root_of (ExprKind.field_access target field) = root_ident target
  root_of (ExprKind.tuple_index target i) = root_ident target
  root_of (ExprKind.index target i) = root_ident target
  root_of (ExprKind.grouping target) = root_ident target
  root_of _ = none

abbrev span_of : Expr → Span
span_of (Expr.expr id kind at) = at

abbrev immutable : Span → Text → Diagnostic
immutable at message = record { code = immutable_mutation; span = at; message = message }

-- The report on a root that is no `var` binding.
abbrev pub not_var : Expr → Text → Diagnostic
not_var target name = immutable (span_of target) (
    text "'"
    ++ (name ++ text "' cannot be mutated because it is not a var binding (D-MUT-01 through 03)"))

abbrev no_place : Expr → Diagnostic
no_place target =
    immutable (span_of target)
      (text "an expression that is not a write to a variable cannot be mutated")

abbrev check_binding : Option Binding → Expr → Text → List Diagnostic → List Diagnostic
check_binding none target name diagnostics = diagnostics
check_binding (some b) target name diagnostics =
    if b.mutable then diagnostics else diagnostics ++ not_var target name ∷ []

abbrev check_root : Option Text → Expr → TypeEnv → List Diagnostic → List Diagnostic
check_root none target env diagnostics = diagnostics ++ no_place target ∷ []
check_root (some name) target env diagnostics =
    check_binding (lookup name env) target name diagnostics

unfoldable pub check_mutable_place : Expr → TypeEnv → List Diagnostic → List Diagnostic
unfolding root_ident
check_mutable_place target env diagnostics = check_root (root_ident target) target env diagnostics
