-- ===== src/Effects/Forwarding.antt =====
-- src/effects/mod.rs: `compute_hof_forwarding`, the parameters of function type that a function calls or
-- hands to a higher-order method.
pub mod Laws
use yabumi.Common.{
  ℕ, suc, Bool, true, false, ◌&&◌, List, [], ◌∷◌, set, map, Option, some, none, Text, text_eq,
  if◌then◌else◌,
}
use yabumi.Ast.Decl.{FunctionDecl, Param}
use yabumi.Ast.Expr.{Expr, expr, ident, Args, no_args, cons_arg}
use yabumi.Ast.TypeAnn.{TypeAnn, TypeAnnKind}
use yabumi.Effects.Site.{CallSite, is_stdlib_hof_method}
use yabumi.Effects.Walk.{walk_block_calls}

abbrev pub is_function_type : TypeAnn → Bool
is_function_type (TypeAnn.type_ann (TypeAnnKind.function params effects ret) at) = true
is_function_type _ = false

abbrev pub next : Option ℕ → Option ℕ
next none = none
next (some i) = some (suc i)

-- The first parameter of the name with a function type.
unfoldable pub function_param : Text → List Param → Option ℕ
function_param name [] = none
function_param name (p ∷ ps) =
    if text_eq p.name name && is_function_type p.ty then some 0 else next (function_param name ps)

abbrev pub mark_param : Option ℕ → List Bool → List Bool
mark_param none forwarding = forwarding
mark_param (some i) forwarding = set forwarding i true

unfoldable pub mark : FunctionDecl → Expr → List Bool → List Bool
unfolding function_param
mark decl (expr id (ident name) at) forwarding =
    mark_param (function_param name decl.params) forwarding
mark decl _ forwarding = forwarding

unfoldable pub mark_args : FunctionDecl → Args → List Bool → List Bool
unfolding mark
mark_args decl no_args forwarding = forwarding
mark_args decl (cons_arg name e placeholder rest) forwarding =
    mark_args decl rest (mark decl e forwarding)

unfoldable pub mark_site : FunctionDecl → CallSite → List Bool → List Bool
unfolding mark mark_args
mark_site decl (CallSite.call at callee args) forwarding = mark decl callee forwarding
mark_site decl (CallSite.pipe at callee source args) forwarding = mark decl callee forwarding
mark_site decl (CallSite.method at receiver name args) forwarding =
    if is_stdlib_hof_method name then mark_args decl args forwarding else forwarding

unfoldable pub mark_sites : FunctionDecl → List CallSite → List Bool → List Bool
unfolding mark_site
mark_sites decl [] forwarding = forwarding
mark_sites decl (site ∷ sites) forwarding = mark_sites decl sites (mark_site decl site forwarding)

abbrev pub unmarked : List Param → List Bool
unmarked [] = []
unmarked (p ∷ ps) = false ∷ unmarked ps

unfoldable pub compute_hof_forwarding : FunctionDecl → List Bool
unfolding mark_sites walk_block_calls
compute_hof_forwarding decl = mark_sites decl (walk_block_calls decl.body) (unmarked decl.params)
