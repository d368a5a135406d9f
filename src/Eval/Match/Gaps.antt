-- ===== src/Eval/Match/Gaps.antt =====
-- Where src/types/exhaustiveness.rs accepts a match that src/eval/expr.rs leaves without an arm: its
-- tests on an arm do not ask whether a bare identifier names a unit variant.
use yabumi.Common.{ℕ, false, [], ◌∷◌, some, none, Text, text, text_eq, ◌≡◌, refl}
use yabumi.Ast.Pattern.{SubPattern, Pattern, NodeId}
use yabumi.Diagnostics.Position.{Span}
use yabumi.Types.Resolutions.{unit_variant}
use yabumi.Types.Ty.{Ty, Tys}
use yabumi.Types.Exhaustiveness.{
  cover, cover_all, missing, check_named_variants_exhaustiveness, check_catchall, check_by_type,
  check_exhaustiveness,
}
use yabumi.Eval.Float.{FloatOps}
use yabumi.Eval.Panic.{unreachable}
use yabumi.Eval.Program.{Program}
use yabumi.Eval.Value.{Value, Values, nil, cons}
use yabumi.Eval.Match.{match_sub_pattern, match_fields, try_match_pattern, select_arm}

-- On a scrutinee of type `Value`, the checker accepts the one arm `Null`, which names a unit variant
-- of `Value`; a value of another variant then selects no arm.
pub check_exhaustiveness-null :
    (f : FloatOps) (program : Program) (args : Tys) (id : NodeId) (at : Span) (index : ℕ)
    (name : Text) (fields : Values)
    → program.resolutions.bare_ident_kind id ≡ some unit_variant
    → text_eq name (text "Null") ≡ false
    → let arms = Pattern.bare_ident (text "Null") id at ∷ [] in
      (check_exhaustiveness (Ty.named (text "Value") args) none arms at [] ≡ [])
      × (select_arm f program arms (Value.enum (text "Value") index name fields) ≡ unreachable)
unfolding check_exhaustiveness check_by_type check_catchall text_eq select_arm try_match_pattern
check_exhaustiveness-null f program args id at index name fields r differ = (refl, rw (r, differ))

-- On an `Option`, the checker accepts the arms `Some(x)` and `None` where `x` names a unit variant of
-- the enum inside; `Some` of another variant of that enum then selects no arm.
pub check_exhaustiveness-some_unit :
    (f : FloatOps) (program : Program) (args : Tys) (x : Text) (x_id none_id : NodeId) (at : Span)
    (type_name : Text) (index : ℕ) (name : Text) (fields : Values)
    → program.resolutions.bare_ident_kind x_id ≡ some unit_variant
    → program.resolutions.bare_ident_kind none_id ≡ some unit_variant
    → text_eq name x ≡ false
    → let arms =
        Pattern.variant (text "Some") (SubPattern.bare_ident x x_id at ∷ []) at
        ∷ Pattern.bare_ident (text "None") none_id at
        ∷ [] in
      let inner = Value.enum type_name index name fields in
      (check_exhaustiveness (Ty.named (text "Option") args) none arms at [] ≡ [])
      × (select_arm f program arms (Value.enum (text "Option") 0 (text "Some") (cons inner nil))
          ≡ unreachable)
unfolding check_exhaustiveness check_by_type check_named_variants_exhaustiveness cover_all cover
    missing text_eq select_arm try_match_pattern match_fields match_sub_pattern
check_exhaustiveness-some_unit f program args x x_id none_id at type_name index name fields r s
      differ =
    (refl, rw (r, differ, s))
