-- ===== src/Eval/Match/Exhaustive.antt =====
-- src/types/exhaustiveness.rs against src/eval/expr.rs: a match that the checker accepts selects an
-- arm at run time.
use yabumi.Common.{
  ap, ◌∙◌, sym, ℕ, Bool, true, false, any, All, List, [], ◌∷◌, Option, some, none, Text, text_eq,
  text_eq_iff, ◌≡◌, refl, ◌⊎◌, inl, inr, arith, Bool-cases,
}
use yabumi.Ast.Pattern.{NodeId, SubPattern, Pattern}
use yabumi.Ast.Decl.{EnumDecl}
use yabumi.Diagnostics.Position.{Span}
use yabumi.Types.Ty.{Ty}
use yabumi.Types.Exhaustiveness.{
  report_missing, Variant, Coverage, names_unit, no_literal, cover, cover_all, contains, missing,
  check_named_variants_exhaustiveness, check_bool_exhaustiveness, check_tuple, check_catchall,
  check_by_type, check_exhaustiveness, is_catchall, is_bool_literal, covers_tuple,
}
use yabumi.Eval.Float.{FloatOps}
use yabumi.Eval.Panic.{ok}
use yabumi.Eval.Program.{Program}
use yabumi.Eval.Value.{Value, Values}
use yabumi.Eval.Match.{match_fields, Bindings, try_match_pattern, select_arm}
use yabumi.Eval.Match.Cases.{
  is_match-match, known_variants, has_variant, is_other, HasShape, named, of_bool, of_tuple, other,
  Resolved, matches, FitsValue, select_arm-some, match_fields-match, is_catchall-match,
  covers_tuple-match, is_bool_literal-match, any_mono,
}

-- A variant that is not missing is covered.
missing-contains :
    (vs : List Variant) (name : Text) (covered : List Text)
    → missing vs covered ≡ []
    → has_variant name vs ≡ true
    → contains name covered ≡ true
unfolding missing
missing-contains [] name covered h has = absurd cc
missing-contains ((v, u) ∷ vs) name covered h has = elim (Bool-cases (contains v covered)) [
  | inl there ↦ elim (Bool-cases (text_eq v name)) [
    | inl same ↦ rw (sym ((text_eq_iff v name).0 same), there)
    | inr differ ↦ missing-contains vs name covered (ground (arith, there)) (ground (arith, differ))
  ]
  | inr absent ↦ absurd (ground (arith, absent))
]

-- The checker's state counts the variant as covered.
abbrev Covered : Text → Coverage → Type 0
Covered name c = (c.has_catchall ≡ true) ⊎ (contains name c.covered ≡ true)

text_eq_swap : (s t : Text) → text_eq s t ≡ true → text_eq t s ≡ true
text_eq_swap s t h = ground (arith, text_eq_iff s t, text_eq_iff t s)

report_missing-nil : (ms : List Text) (at : Span) → report_missing ms at [] ≡ [] → ms ≡ []
report_missing-nil [] at h = refl
report_missing-nil (m ∷ ms) at h = absurd cc

module _ (f : FloatOps) (program : Program) (known : List Variant) where
  bare_ident-matches :
      (tn : Text) (i : ℕ) (name : Text) (vs : Values) (x : Text) (id : NodeId) (at : Span)
      → Resolved f program known (Pattern.bare_ident x id at)
      → (names_unit x known ≡ false) ⊎ (text_eq x name ≡ true)
      → matches f program (Value.enum tn i name vs) (Pattern.bare_ident x id at) ≡ true
  unfolding try_match_pattern
  bare_ident-matches tn i name vs x id at r h = elim (Bool-cases (names_unit x known)) [
    | inl unit ↦ rw (r, unit, text_eq_swap x name (ground (arith, unit)))
    | inr bound ↦ rw (r, bound)
  ]

  variant-matches :
      (tn : Text) (i : ℕ) (name : Text) (vs : Values) (x : Text) (subs : List SubPattern)
      (at : Span)
      → Resolved f program known (Pattern.variant x subs at)
      → no_literal subs ≡ true
      → text_eq x name ≡ true
      → matches f program (Value.enum tn i name vs) (Pattern.variant x subs at) ≡ true
  unfolding try_match_pattern
  variant-matches tn i name vs x subs at r h same =
      let (bs, e) =
        is_match-match (match_fields f program subs vs)
          (match_fields-match f program subs vs r h) in
      rw (text_eq_swap x name same, e)

  -- One arm: a value it newly covers, it matches.
  cover-matches :
      (tn : Text) (i : ℕ) (name : Text) (vs : Values) (p : Pattern) (c : Coverage)
      → Resolved f program known p
      → Covered name (cover known p c)
      → Covered name c ⊎ (matches f program (Value.enum tn i name vs) p ≡ true)
  unfolding cover try_match_pattern
  cover-matches tn i name vs (Pattern.wildcard at) c r h = inr refl
  cover-matches tn i name vs (Pattern.bare_ident x id at) c r h =
      ground (arith, bare_ident-matches tn i name vs x id at r)
  cover-matches tn i name vs (Pattern.variant x subs at) c r h =
      ground (arith, variant-matches tn i name vs x subs at r)
  cover-matches tn i name vs (Pattern.literal lit at) c r h = inl h
  cover-matches tn i name vs (Pattern.tuple subs at) c r h = inl h

  cover_all-matches :
      (tn : Text) (i : ℕ) (name : Text) (vs : Values) (arms : List Pattern) (c : Coverage)
      → All (Resolved f program known) arms
      → Covered name (cover_all known arms c)
      → Covered name c ⊎ (any (matches f program (Value.enum tn i name vs)) arms ≡ true)
  unfolding cover_all
  cover_all-matches tn i name vs [] c r h = inl h
  cover_all-matches tn i name vs (p ∷ ps) c (r, rs) h = ground (
    arith,
    cover_all-matches tn i name vs ps (cover known p c) rs h,
    cover-matches tn i name vs p c r,
  )

  check_named_variants_exhaustiveness-matches :
      (tn : Text) (i : ℕ) (name : Text) (vs : Values) (arms : List Pattern) (at : Span)
      → All (Resolved f program known) arms
      → has_variant name known ≡ true
      → check_named_variants_exhaustiveness known arms at [] ≡ []
      → any (matches f program (Value.enum tn i name vs)) arms ≡ true
  unfolding check_named_variants_exhaustiveness
  check_named_variants_exhaustiveness-matches tn i name vs arms at r has h =
      let c = cover_all known arms (record { covered = []; has_catchall = false }) in
      let covers : Covered name c = elim (Bool-cases c.has_catchall) [
        | inl all_caught ↦ inl all_caught
        | inr uncaught ↦
            let no_missing =
              report_missing-nil (missing known c.covered) at (ground (arith, uncaught)) in
            inr (missing-contains known name c.covered no_missing has)
      ] in
      ground (
        arith,
        cover_all-matches tn i name vs arms (record { covered = []; has_catchall = false }) r
            covers,
      )

check-named :
    (ty : Ty) (decl : Option EnumDecl) (name : Text) (arms : List Pattern) (at : Span)
    → has_variant name (known_variants ty decl) ≡ true
    → check_exhaustiveness ty decl arms at []
      ≡ check_named_variants_exhaustiveness (known_variants ty decl) arms at []
unfolding check_exhaustiveness check_by_type
check-named ty (some decl) name arms at has = refl
check-named (Ty.named n args) none name arms at has = ground arith
check-named _ none name arms at has = absurd cc

is_other-known : (ty : Ty) → is_other ty ≡ true → known_variants ty none ≡ []
is_other-known (Ty.named n args) o = ground arith
is_other-known _ o = refl

is_other-check :
    (ty : Ty) (arms : List Pattern) (at : Span)
    → is_other ty ≡ true
    → check_exhaustiveness ty none arms at [] ≡ check_catchall arms at []
unfolding check_exhaustiveness check_by_type
is_other-check (Ty.named n args) arms at o = ground arith
is_other-check Ty.bool arms at o = absurd cc
is_other-check (Ty.tuple items) arms at o = absurd cc
is_other-check Ty.unknown arms at o = absurd cc
is_other-check _ arms at o = refl

check_tuple-nil :
    (arms : List Pattern) (at : Span) → check_tuple arms at [] ≡ [] → any covers_tuple arms ≡ true
unfolding check_tuple
check_tuple-nil arms at h = ground arith

check_catchall-nil :
    (arms : List Pattern) (at : Span) → check_catchall arms at [] ≡ [] → any is_catchall arms ≡ true
unfolding check_catchall
check_catchall-nil arms at h = ground arith

module _ (f : FloatOps) (program : Program) where
  check_bool-matches :
      (b : Bool) (arms : List Pattern) (at : Span)
      → All (Resolved f program []) arms
      → check_bool_exhaustiveness arms at [] ≡ []
      → any (matches f program (Value.bool b)) arms ≡ true
  unfolding check_bool_exhaustiveness
  check_bool-matches b arms at r h =
      let by_catchall =
        any_mono f program [] is_catchall (Value.bool b) arms
          (λ p. is_catchall-match f program [] p (Value.bool b) (λ name. refl)) r in
      let by_literal =
        any_mono f program [] (is_bool_literal b) (Value.bool b) arms
          (λ p resolved. is_bool_literal-match f program b p) r in
      elim (Bool-cases b) [
        | inl e ↦ ground (arith, by_catchall, by_literal, e)
        | inr e ↦ ground (arith, by_catchall, by_literal, e)
      ]

  check_exhaustiveness-matches :
      (ty : Ty) (decl : Option EnumDecl) (v : Value) (arms : List Pattern) (at : Span)
      → HasShape ty decl v
      → All (Resolved f program (known_variants ty decl)) arms
      → check_exhaustiveness ty decl arms at [] ≡ []
      → any (matches f program v) arms ≡ true
  unfolding check_exhaustiveness
  check_exhaustiveness-matches ty decl _ arms at (named _ _ tn i name vs has) r h =
      check_named_variants_exhaustiveness-matches f program (known_variants ty decl) tn i name vs
        arms at r has (sym (check-named ty decl name arms at has) ∙ h)
  check_exhaustiveness-matches _ _ _ arms at (of_bool b) r h = check_bool-matches b arms at r h
  check_exhaustiveness-matches _ _ _ arms at (of_tuple items vs) r h =
      any_mono f program [] covers_tuple (Value.tuple vs) arms
        (λ p. covers_tuple-match f program p vs) r (check_tuple-nil arms at h)
  check_exhaustiveness-matches ty _ v arms at (other _ _ o) r h =
      any_mono f program (known_variants ty none) is_catchall v arms
        (λ p.
          is_catchall-match f program (known_variants ty none) p v
            (λ name. ap (names_unit name) (is_other-known ty o)))
        r (check_catchall-nil arms at (sym (is_other-check ty arms at o) ∙ h))

-- A match on a value of the scrutinee's type selects an arm, whatever the program's types and the
-- float operations are: if the checker reports nothing for the arms, each bare identifier as an arm
-- stands for a unit variant where it names one of the scrutinee's enum and for a binding elsewhere,
-- no field of a pattern names a unit variant, and no arm's test reaches `unreachable`.
pub check_exhaustiveness-select_arm :
    (f : FloatOps) (program : Program) (ty : Ty) (decl : Option EnumDecl) (v : Value)
    (arms : List Pattern) (at : Span)
    → HasShape ty decl v
    → All (Resolved f program (known_variants ty decl)) arms
    → All (FitsValue f program v) arms
    → check_exhaustiveness ty decl arms at [] ≡ []
    → (i : ℕ) × (bs : Bindings) × (select_arm f program arms v ≡ ok (i, bs))
check_exhaustiveness-select_arm f program ty decl v arms at shape r fits h =
    select_arm-some f program arms v fits
      (check_exhaustiveness-matches f program ty decl v arms at shape r h)
