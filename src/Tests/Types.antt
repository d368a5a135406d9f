-- ===== src/Tests/Types.antt =====
-- The theorems of Types and Diagnostics at concrete inputs.
use yabumi.Common.{
  ◌⊎◌, Text, ◌∷◌, false, if◌then◌else◌, text_eq, ◌++◌, true, [], some, text, ◌≡◌, refl, all, ◌<◌,
  arith,
}
use yabumi.Diagnostics.Codes.{duplicate_name}
use yabumi.Diagnostics.Codes.Laws.{display-injective}
use yabumi.Types.Effects.{union, is_subset_of, names}
use yabumi.Types.Effects.Laws.{has, is_subset_of-names, union-lub}
use yabumi.Common.TextMap.{insert}
use yabumi.Common.Int.{pos}
use yabumi.Ast.Expr.{Expr, ExprKind}
use yabumi.Diagnostics.Position.{Span}
use yabumi.Types.Env.{TypeEnv, bind}
use yabumi.Types.Mutability.{root_ident, check_mutable_place, not_var}
use yabumi.Types.Mutability.Laws.{check_mutable_place-bind}
use yabumi.Types.Ty.{Ty}
use yabumi.Types.Unify.{unify}
use yabumi.Types.Unify.Refinement.{Refines, unify-is_least, unify_comm}
use yabumi.Types.Generics.{substitute, unify_collect}
use yabumi.Types.Generics.Soundness.{Extends, Fits, unify_collect_sound}
use yabumi.Types.Generics.Origin.{Meets}
use yabumi.Common.TextMap.{get}

abbrev unknowns : Ty
unknowns = Ty.list Ty.unknown

abbrev ints : Ty
ints = Ty.list Ty.int

unify-is_least_example :
    ((r : Ty) → unify unknowns ints ≡ some r → Refines r unknowns × Refines r ints)
    × ((t : Ty)
        → Refines t unknowns
        → Refines t ints
        → (r : Ty) × (unify unknowns ints ≡ some r) × Refines t r)
unify-is_least_example = unify-is_least unknowns ints

unify_comm_example : (s : Ty) × (unify ints unknowns ≡ some s) × Refines ints s
unfolding unify
unify_comm_example = unify_comm unknowns ints refl

abbrev pairs : Ty
pairs = Ty.dict (Ty.type_var (text "K")) (Ty.list (Ty.type_var (text "V")))

abbrev counts : Ty
counts = Ty.dict Ty.str ints

unify_collect_sound_example :
    Extends [] (unify_collect pairs counts []).1
    × ((n : Text) (t : Ty)
        → get n (unify_collect pairs counts []).1 ≡ some t
        → (get {V = Ty} n [] ≡ some t) ⊎ Meets n t pairs counts)
    × ((unify_collect pairs counts []).0 ≡ true
        → Fits (unify_collect pairs counts []).1 pairs counts
          × (r : Ty) × (unify (substitute pairs (unify_collect pairs counts []).1) counts ≡ some r))
unify_collect_sound_example = unify_collect_sound pairs counts []

display-injective_example : duplicate_name ≡ duplicate_name
display-injective_example = display-injective duplicate_name duplicate_name refl

union-lub_example :
    (is_subset_of 3 (union 3 6) ≡ true)
    × (is_subset_of 6 (union 3 6) ≡ true)
    × (union 3 6 < 64)
    × (is_subset_of 3 15 ≡ true → is_subset_of 6 15 ≡ true → is_subset_of (union 3 6) 15 ≡ true)
union-lub_example = union-lub 3 6 15 (omega arith) (omega arith) (omega arith)

is_subset_of-names_example : is_subset_of 5 7 ≡ all (has (names 7)) (names 5)
is_subset_of-names_example = is_subset_of-names 5 7 (omega arith) (omega arith)

abbrev here : Span
here = record { file = 0; start = record { line = 1; col = 1 }; end = record { line = 1; col = 2 } }

-- `xs[0]`, where `xs` is declared with `var` outside and without it inside.
abbrev first_of_xs : Expr
first_of_xs =
    Expr.expr 2
      (ExprKind.index (Expr.expr 0 (ExprKind.ident (text "xs")) here)
        (Expr.expr 1 (ExprKind.int_lit (pos 0)) here))
      here

abbrev with_var : TypeEnv
with_var = record {
  scopes = [] ∷ ((text "xs", record { ty = ints; mutable = true; def_span = here }) ∷ []) ∷ [];
  generics = [];
}

abbrev shadowed : TypeEnv
shadowed = record {
  scopes =
      ((text "xs", record { ty = ints; mutable = false; def_span = here }) ∷ [])
      ∷ ((text "xs", record { ty = ints; mutable = true; def_span = here }) ∷ [])
      ∷ [];
  generics = [];
}

check_mutable_place-bind_example : check_mutable_place first_of_xs shadowed [] ≡ (
    if text_eq (text "xs") (text "xs")
    then (if false then [] else [] ++ not_var first_of_xs (text "xs") ∷ [])
    else check_mutable_place first_of_xs with_var [])
unfolding root_ident bind insert
check_mutable_place-bind_example =
    check_mutable_place-bind first_of_xs (text "xs") (text "xs") ints false here with_var shadowed
      [] refl refl
