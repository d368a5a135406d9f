-- ===== src/Types/Generics.antt =====
-- src/types/generics.rs: substitution and unification of type variables at a generic call. A
-- `HashMap<Arc<str>, Ty>` is a text map.
pub mod Origin
pub mod Soundness
use yabumi.Common.{
  ◌==◌, Bool, true, false, not, ◌&&◌, ◌||◌, any, Option, some, none, List, [], ◌∷◌, ◌++◌,
  if◌then◌else◌, Text, text, text_eq,
}
use yabumi.Common.TextMap.{TextMap, get, insert, contains_key}
use yabumi.Types.Ty.{
  count, Ty, Tys, int, float, bool, str, void, list, dict, set, tuple, named, function, type_var,
  unknown, nil, cons,
}
use yabumi.Types.Unify.{unify}
use yabumi.Diagnostics.Codes.{uninferable_type, unsupported_operator_for_type_param}
use yabumi.Diagnostics.Diagnostic.{Diagnostic}
use yabumi.Diagnostics.Position.{Span}
use yabumi.Ast.Expr.{BinaryOp}

abbrev pub Subst : Type 0
Subst = TextMap Ty

abbrev is_some {ℓ} : {A : Type ℓ} → Option A → Bool
is_some none = false
is_some (some a) = true

unfoldable pub structurally_compatible : Ty → Ty → Bool
structurally_compatible a b = is_some (unify a b)

-- Rust's `&&` over a table that the operands change: the right one runs if the left one holds.
abbrev pub and_then : Bool × Subst → (Subst → Bool × Subst) → Bool × Subst
and_then (true, s) k = k s
and_then (false, s) k = (false, s)

-- The case of a type variable.
unfoldable pub collect_var : Text → Ty → Subst → Bool × Subst
unfolding structurally_compatible
collect_var n c s = elim (get n s) [
  | some existing ↦ (structurally_compatible existing c, s)
  | none ↦ (true, insert n c s)
]

-- The result and the table after the call.
unfoldable mutual
  unfolding collect_var structurally_compatible

  pub unify_collect : Ty → Ty → Subst → Bool × Subst
  unify_collect p unknown s = (true, s)
  unify_collect p (type_var m) s = (true, s)
  unify_collect (type_var n) c s = collect_var n c s
  unify_collect (list a) (list b) s = unify_collect a b s
  unify_collect (set a) (set b) s = unify_collect a b s
  unify_collect (dict ak av) (dict bk bv) s = and_then (unify_collect ak bk s) (unify_collect av bv)
  unify_collect (tuple xs) (tuple ys) s =
      if count xs == count ys then unify_collect_all xs ys s else (false, s)
  unify_collect (named pn xs) (named cn ys) s =
      if text_eq pn cn && count xs == count ys then unify_collect_all xs ys s else (false, s)
  unify_collect (function pp pe pr) (function cp ce cr) s =
      let inner = and_then (unify_collect_all pp cp s) (unify_collect pr cr) in
      if count pp == count cp then inner else (false, s)
  unify_collect int c s = (structurally_compatible int c, s)
  unify_collect float c s = (structurally_compatible float c, s)
  unify_collect bool c s = (structurally_compatible bool c, s)
  unify_collect str c s = (structurally_compatible str c, s)
  unify_collect void c s = (structurally_compatible void c, s)
  unify_collect unknown c s = (structurally_compatible unknown c, s)
  unify_collect _ _ s = (false, s)

  pub unify_collect_all : Tys → Tys → Subst → Bool × Subst
  unify_collect_all nil nil s = (true, s)
  unify_collect_all (cons x xs) (cons y ys) s =
      and_then (unify_collect x y s) (unify_collect_all xs ys)
  unify_collect_all _ _ s = (false, s)

abbrev or_else : Option Ty → Ty → Ty
or_else none t = t
or_else (some u) t = u

unfoldable mutual
  pub substitute : Ty → Subst → Ty
  substitute (type_var n) s = or_else (get n s) (type_var n)
  substitute (list a) s = list (substitute a s)
  substitute (set a) s = set (substitute a s)
  substitute (dict k v) s = dict (substitute k s) (substitute v s)
  substitute (tuple ts) s = tuple (substitute_all ts s)
  substitute (named n ts) s = named n (substitute_all ts s)
  substitute (function ps e r) s = function (substitute_all ps s) e (substitute r s)
  substitute t s = t

  pub substitute_all : Tys → Subst → Tys
  substitute_all nil s = nil
  substitute_all (cons t ts) s = cons (substitute t s) (substitute_all ts s)

unfoldable mutual
  pub contains_type_var : Ty → Bool
  contains_type_var (type_var n) = true
  contains_type_var (list a) = contains_type_var a
  contains_type_var (set a) = contains_type_var a
  contains_type_var (dict k v) = contains_type_var k || contains_type_var v
  contains_type_var (tuple ts) = any_type_var ts
  contains_type_var (named n ts) = any_type_var ts
  contains_type_var (function ps e r) = any_type_var ps || contains_type_var r
  contains_type_var _ = false

  pub any_type_var : Tys → Bool
  any_type_var nil = false
  any_type_var (cons t ts) = contains_type_var t || any_type_var ts

-- The table is changed only by `unify_collect`, and the diagnostics only grow.
pub record Finalized : Type 0 where
  pub ty : Ty
  pub subst : Subst
  pub diagnostics : List Diagnostic

-- `generics.iter().any(|g| !s.contains_key(g))`
unfoldable pub unresolved : List Text → Subst → Bool
unresolved generics s = any (λ g. not (contains_key g s)) generics

-- The table after the attempt against the expected type.
unfoldable pub attempt : Ty → Subst → List Text → Option Ty → Subst
unfolding unresolved
attempt declared_ret s generics none = s
attempt declared_ret s generics (some expected) =
    if unresolved generics s then (unify_collect (substitute declared_ret s) expected s).1 else s

unfoldable pub finalize_ret :
    Ty → Subst → List Text → Option Ty → Span → List Diagnostic → Finalized
unfolding attempt unresolved
finalize_ret declared_ret s generics expected_ret call_span diagnostics =
    let s' = attempt declared_ret s generics expected_ret in
    if unresolved generics s'
    then record {
      ty = unknown;
      subst = s';
      diagnostics =
          diagnostics
          ++ record {
            code = uninferable_type;
            span = call_span;
            message =
                text "cannot infer the type argument (specify it explicitly with f[Type](...))";
          }
            ∷ [];
    }
    else record { ty = substitute declared_ret s'; subst = s'; diagnostics = diagnostics }

abbrev is_type_var : Ty → Bool
is_type_var (type_var n) = true
is_type_var _ = false

abbrev is_equality : BinaryOp → Bool
is_equality BinaryOp.eq_eq = true
is_equality BinaryOp.not_eq = true
is_equality _ = false

-- The answer, and the diagnostics after the call.
unfoldable pub check_type_param_operator_usage :
    Ty → BinaryOp → Span → List Diagnostic → Bool × List Diagnostic
check_type_param_operator_usage operand_ty op at diagnostics =
    if is_type_var operand_ty && not (is_equality op)
    then (
      false,
      diagnostics
          ++ record {
            code = unsupported_operator_for_type_param;
            span = at;
            message = text "an unconstrained type parameter can only use == / != as operators";
          }
            ∷ [],
    )
    else (true, diagnostics)
