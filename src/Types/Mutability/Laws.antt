-- ===== src/Types/Mutability/Laws.antt =====
-- What a declaration and a scope do to the check of a written place.
use yabumi.Common.{
  Bool, List, [], ◌∷◌, ◌++◌, some, if◌then◌else◌, Text, text_eq, subst, Bool-cases, inl, inr, ◌≡◌,
  arith,
}
use yabumi.Common.TextMap.{TextMap, get-insert}
use yabumi.Ast.Expr.{Expr}
use yabumi.Diagnostics.Diagnostic.{Diagnostic}
use yabumi.Diagnostics.Position.{Span}
use yabumi.Eval.Panic.{ok}
use yabumi.Types.Ty.{Ty}
use yabumi.Types.Env.{Binding, TypeEnv, bind, bind_in, lookup, lookup_in}
use yabumi.Types.Mutability.{root_ident, not_var, check_mutable_place}

ok_inj : {e f : TypeEnv} → ok e ≡ ok f → e ≡ f
ok_inj h = cc

lookup-bind_in :
    (ss : List (TextMap Binding)) (name j : Text) (b : Binding) (env : TypeEnv) {after : TypeEnv}
    → bind_in ss name b env ≡ ok after
    → lookup_in after.scopes j ≡ (if text_eq name j then some b else lookup_in ss j)
unfolding lookup_in
lookup-bind_in [] name j b env h = absurd cc
lookup-bind_in (s ∷ ss) name j b env h =
    subst (λ e. lookup_in e.scopes j ≡ (if text_eq name j then some b else lookup_in (s ∷ ss) j))
      (ok_inj h) (ground (arith, get-insert name j b s))

-- What `lookup` sees behind a declaration.
lookup-bind :
    (name j : Text) (ty : Ty) (mutable : Bool) (at : Span) (env : TypeEnv) {after : TypeEnv}
    → bind name ty mutable at env ≡ ok after
    → lookup j after ≡ (
        if text_eq name j
        then some (record { ty = ty; mutable = mutable; def_span = at })
        else lookup j env)
unfolding bind lookup
lookup-bind name j ty mutable at env h = lookup-bind_in env.scopes name j _ env h

-- Behind a declaration, which is the innermost of its name, a place whose root is that name is
-- accepted exactly if it was declared with `var`, and a place with another root is checked as before.
pub check_mutable_place-bind :
    (target : Expr) (place name : Text) (ty : Ty) (mutable : Bool) (at : Span) (env after : TypeEnv)
    (diagnostics : List Diagnostic)
    → root_ident target ≡ some place
    → bind name ty mutable at env ≡ ok after
    → check_mutable_place target after diagnostics ≡ (
        if text_eq name place
        then (if mutable then diagnostics else diagnostics ++ not_var target place ∷ [])
        else check_mutable_place target env diagnostics)
unfolding check_mutable_place
check_mutable_place-bind target place name ty mutable at env after diagnostics rooted bound =
    rw (rooted, lookup-bind name place ty mutable at env bound)
      (elim (Bool-cases (text_eq name place)) [ inl same ↦ rw same | inr other ↦ rw other ])
