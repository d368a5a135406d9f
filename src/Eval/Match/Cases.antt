-- ===== src/Eval/Match/Cases.antt =====
-- What the tests of src/types/exhaustiveness.rs on an arm mean for `try_match_pattern` of
-- src/eval/expr.rs.
use yabumi.Common.{
  ℕ, suc, Bool, true, false, not, ◌&&◌, any, All, List, [], ◌∷◌, Option, some, none, if◌then◌else◌,
  Text, text, text_eq, ◌≡◌, refl, inl, inr, arith, Option-cases,
}
use yabumi.Ast.Pattern.{LiteralPat, SubPattern, Pattern}
use yabumi.Ast.Decl.{EnumDecl}
use yabumi.Types.Resolutions.{BareIdentKind, unit_variant, binding}
use yabumi.Types.Ty.{Ty, Tys}
use yabumi.Types.Exhaustiveness.{
  Variant, names_unit, no_literal, is_catchall, is_bool_literal, covers_tuple, declared_variants,
  result_variants, option_variants,
}
use yabumi.Eval.Float.{FloatOps}
use yabumi.Eval.Panic.{Outcome, ok}
use yabumi.Eval.Program.{Program}
use yabumi.Eval.Value.{Value, Values, nil, cons}
use yabumi.Eval.Match.{
  Bindings, literal_matches, match_sub_pattern, match_fields, try_match_pattern, select_arm,
}

-- The unit variants that a bare identifier may name, by the scrutinee's type.
abbrev pub known_variants : Ty → Option EnumDecl → List Variant
known_variants ty (some decl) = declared_variants decl.variants
known_variants (Ty.named name args) none =
    if text_eq name (text "Result")
    then result_variants
    else if text_eq name (text "Option")
    then option_variants
    else []
known_variants _ none = []

abbrev pub kind_of : List Variant → Text → BareIdentKind
kind_of variants name = if names_unit name variants then unit_variant else binding

abbrev pub has_variant : Text → List Variant → Bool
has_variant name = any (λ (v, is_unit). text_eq v name)

abbrev pub is_other : Ty → Bool
is_other (Ty.named name args) =
    not (text_eq name (text "Result")) && not (text_eq name (text "Option"))
is_other Ty.bool = false
is_other (Ty.tuple items) = false
is_other Ty.unknown = false
is_other _ = true

-- The values of a scrutinee of that type, as far as the choice of an arm depends on it.
pub data HasShape : Ty → Option EnumDecl → Value → Type 0 where
  named :
      (ty : Ty) (decl : Option EnumDecl) (type_name : Text) (index : ℕ) (name : Text) (vs : Values)
      → has_variant name (known_variants ty decl) ≡ true
      → HasShape ty decl (Value.enum type_name index name vs)
  of_bool : (b : Bool) → HasShape Ty.bool none (Value.bool b)
  of_tuple : (items : Tys) (vs : Values) → HasShape (Ty.tuple items) none (Value.tuple vs)
  other : (ty : Ty) (v : Value) → is_other ty ≡ true → HasShape ty none v

abbrev is_match : Outcome (Option Bindings) → Bool
is_match (ok (some bindings)) = true
is_match _ = false

abbrev returns : Outcome (Option Bindings) → Bool
returns (ok found) = true
returns _ = false

pub is_match-match :
    (m : Outcome (Option Bindings)) → is_match m ≡ true → (bs : Bindings) × (m ≡ ok (some bs))
is_match-match (ok (some bs)) h = (bs, refl)
is_match-match _ h = absurd cc

returns-ok :
    (m : Outcome (Option Bindings)) → returns m ≡ true → (found : Option Bindings) × (m ≡ ok found)
returns-ok (ok found) h = (found, refl)
returns-ok _ h = absurd cc

module _ (f : FloatOps) (program : Program) where
  -- A bare identifier in a field is a binding.
  abbrev pub BindsField : SubPattern → Type 0
  BindsField (SubPattern.bare_ident name id at) =
      program.resolutions.bare_ident_kind id ≡ some binding
  BindsField _ = Unit

  -- `bind_pattern`'s resolution of a bare identifier as an arm.
  abbrev pub Resolved : List Variant → Pattern → Type 0
  Resolved known (Pattern.bare_ident name id at) =
      program.resolutions.bare_ident_kind id ≡ some (kind_of known name)
  Resolved known (Pattern.variant name subs at) = All BindsField subs
  Resolved known (Pattern.tuple subs at) = All BindsField subs
  Resolved known _ = Unit

  abbrev pub matches : Value → Pattern → Bool
  matches v p = is_match (try_match_pattern f program p v)

  -- The arm's test reaches no `unreachable!`.
  abbrev pub FitsValue : Value → Pattern → Type 0
  FitsValue v p = returns (try_match_pattern f program p v) ≡ true

  pub select_arm-some :
      (arms : List Pattern) (v : Value)
      → All (FitsValue v) arms
      → any (matches v) arms ≡ true
      → (i : ℕ) × (bs : Bindings) × (select_arm f program arms v ≡ ok (i, bs))
  unfolding select_arm
  select_arm-some [] v fit h = absurd cc
  select_arm-some (p ∷ ps) v (fit, fits) h =
      let (found, e) = returns-ok (try_match_pattern f program p v) fit in
      elim (Option-cases found) [
        | inl none_found ↦
            let (i, bs, later) = select_arm-some ps v fits (ground (arith, e, none_found)) in
            (suc i, bs, rw (e, none_found, later))
        | inr (bs, some_found) ↦ (0, bs, rw (e, some_found))
      ]

  pub match_fields-match :
      (subs : List SubPattern) (vs : Values)
      → All BindsField subs
      → no_literal subs ≡ true
      → is_match (match_fields f program subs vs) ≡ true
  unfolding match_fields match_sub_pattern
  match_fields-match [] vs b h = refl
  match_fields-match (s ∷ ss) nil b h = refl
  match_fields-match (SubPattern.wildcard at ∷ ss) (cons v vs) (b, bs) h =
      let (cs, e) = is_match-match (match_fields f program ss vs) (match_fields-match ss vs bs h) in
      rw (e)
  match_fields-match (SubPattern.bare_ident name id at ∷ ss) (cons v vs) (b, bs) h =
      let (cs, e) = is_match-match (match_fields f program ss vs) (match_fields-match ss vs bs h) in
      rw (b, e)
  match_fields-match (SubPattern.literal lit at ∷ ss) (cons v vs) (b, bs) h = absurd cc

  -- What each test of the checker gives at run time.
  pub is_catchall-match :
      (known : List Variant) (p : Pattern) (v : Value)
      → ((name : Text) → names_unit name known ≡ false)
      → Resolved known p
      → is_catchall p ≡ true
      → matches v p ≡ true
  unfolding try_match_pattern
  is_catchall-match known (Pattern.wildcard at) v none_known r h = refl
  is_catchall-match known (Pattern.bare_ident name id at) v none_known r h = rw (r, none_known name)
  is_catchall-match known _ v none_known r h = absurd cc

  pub covers_tuple-match :
      (p : Pattern) (vs : Values)
      → Resolved [] p
      → covers_tuple p ≡ true
      → matches (Value.tuple vs) p ≡ true
  unfolding try_match_pattern
  covers_tuple-match (Pattern.wildcard at) vs r h = refl
  covers_tuple-match (Pattern.bare_ident name id at) vs r h = rw (r)
  covers_tuple-match (Pattern.tuple subs at) vs r h = match_fields-match subs vs r h
  covers_tuple-match _ vs r h = absurd cc

  pub is_bool_literal-match :
      (b : Bool) (p : Pattern) → is_bool_literal b p ≡ true → matches (Value.bool b) p ≡ true
  unfolding try_match_pattern literal_matches
  is_bool_literal-match true (Pattern.literal (LiteralPat.bool true) at) h = refl
  is_bool_literal-match false (Pattern.literal (LiteralPat.bool false) at) h = refl
  is_bool_literal-match _ _ h = absurd cc

  pub any_mono :
      (known : List Variant) (test : Pattern → Bool) (v : Value) (arms : List Pattern)
      → ((p : Pattern) → Resolved known p → test p ≡ true → matches v p ≡ true)
      → All (Resolved known) arms
      → any test arms ≡ true
      → any (matches v) arms ≡ true
  any_mono known test v [] imp r h = h
  any_mono known test v (p ∷ ps) imp (r, rs) h =
      ground (arith, imp p r, any_mono known test v ps imp rs)
