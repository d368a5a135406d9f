-- ===== src/Types/Exhaustiveness.antt =====
-- src/types/exhaustiveness.rs: the check that the arms of a match cover the scrutinee.
use yabumi.Common.{
  Bool, true, false, not, ◌&&◌, ◌||◌, all, any, List, [], ◌∷◌, ◌++◌, Option, some, none,
  if◌then◌else◌, Text, text, text_eq,
}
use yabumi.Diagnostics.Codes.{non_exhaustive_match}
use yabumi.Diagnostics.Diagnostic.{Diagnostic}
use yabumi.Diagnostics.Position.{Span}
use yabumi.Ast.Pattern.{LiteralPat, SubPattern, Pattern}
use yabumi.Ast.Decl.{EnumDecl, EnumVariant}
use yabumi.Types.Ty.{Ty, comma_separated}

-- The name of a variant, and whether it has no fields.
abbrev pub Variant : Type 0
Variant = Text × Bool

abbrev pub is_literal : SubPattern → Bool
is_literal (SubPattern.literal lit at) = true
is_literal _ = false

abbrev pub no_literal : List SubPattern → Bool
no_literal = all (λ s. not (is_literal s))

abbrev pub names_unit : Text → List Variant → Bool
names_unit name = any (λ (v, is_unit). text_eq v name && is_unit)

-- What the loop over the arms has seen: the names covered, and whether an arm catches all.
pub record Coverage : Type 0 where
  pub covered : List Text
  pub has_catchall : Bool

unfoldable pub cover : List Variant → Pattern → Coverage → Coverage
cover variants (Pattern.wildcard at) c = record c { has_catchall = true }
cover variants (Pattern.variant name fields at) c =
    if no_literal fields then record c { covered = name ∷ c.covered } else c
cover variants (Pattern.bare_ident name id at) c =
    if names_unit name variants
    then record c { covered = name ∷ c.covered }
    else record c { has_catchall = true }
cover variants (Pattern.literal lit at) c = c
cover variants (Pattern.tuple subs at) c = c

unfoldable pub cover_all : List Variant → List Pattern → Coverage → Coverage
unfolding cover
cover_all variants [] c = c
cover_all variants (p ∷ ps) c = cover_all variants ps (cover variants p c)

abbrev pub contains : Text → List Text → Bool
contains name = any (λ n. text_eq n name)

unfoldable pub missing : List Variant → List Text → List Text
missing [] covered = []
missing ((name, is_unit) ∷ vs) covered =
    if contains name covered then missing vs covered else name ∷ missing vs covered

abbrev non_exhaustive : Span → Text → Diagnostic
non_exhaustive at message = record { code = non_exhaustive_match; span = at; message = message }

-- The report on a list of missing variants.
abbrev pub report_missing : List Text → Span → List Diagnostic → List Diagnostic
report_missing [] at diagnostics = diagnostics
report_missing (m ∷ ms) at diagnostics =
    diagnostics
    ++ non_exhaustive at (
        text "match is not exhaustive (uncovered variants: "
        ++ (comma_separated (m ∷ ms) ++ text ")"))
      ∷ []

unfoldable pub check_named_variants_exhaustiveness :
    List Variant → List Pattern → Span → List Diagnostic → List Diagnostic
unfolding cover_all missing
check_named_variants_exhaustiveness variants arm_patterns match_span diagnostics =
    let c = cover_all variants arm_patterns (record { covered = []; has_catchall = false }) in
    if c.has_catchall
    then diagnostics
    else report_missing (missing variants c.covered) match_span diagnostics

abbrev pub is_catchall : Pattern → Bool
is_catchall (Pattern.wildcard at) = true
is_catchall (Pattern.bare_ident name id at) = true
is_catchall _ = false

abbrev pub is_bool_literal : Bool → Pattern → Bool
is_bool_literal true (Pattern.literal (LiteralPat.bool true) at) = true
is_bool_literal false (Pattern.literal (LiteralPat.bool false) at) = true
is_bool_literal _ _ = false

unfoldable pub check_bool_exhaustiveness : List Pattern → Span → List Diagnostic → List Diagnostic
check_bool_exhaustiveness arm_patterns match_span diagnostics =
    if any is_catchall arm_patterns
      || (any (is_bool_literal true) arm_patterns && any (is_bool_literal false) arm_patterns)
    then diagnostics
    else diagnostics
      ++ non_exhaustive match_span
          (text "a match on bool requires both true/false arms, or a wildcard `_` arm")
        ∷ []

abbrev pub covers_tuple : Pattern → Bool
covers_tuple (Pattern.wildcard at) = true
covers_tuple (Pattern.bare_ident name id at) = true
covers_tuple (Pattern.tuple subs at) = no_literal subs
covers_tuple _ = false

abbrev no_fields {ℓ} : {A : Type ℓ} → List A → Bool
no_fields [] = true
no_fields (x ∷ xs) = false

abbrev pub declared_variants : List EnumVariant → List Variant
declared_variants [] = []
declared_variants (v ∷ vs) = (v.name, no_fields v.fields) ∷ declared_variants vs

abbrev pub result_variants : List Variant
result_variants = (text "Ok", false) ∷ (text "Err", false) ∷ []

abbrev pub option_variants : List Variant
option_variants = (text "Some", false) ∷ (text "None", true) ∷ []

-- The last case: any other scrutinee.
unfoldable pub check_catchall : List Pattern → Span → List Diagnostic → List Diagnostic
check_catchall arm_patterns match_span diagnostics =
    if any is_catchall arm_patterns
    then diagnostics
    else diagnostics
      ++ non_exhaustive match_span
          (text "a match on a non-enum scrutinee requires a trailing wildcard `_` arm")
        ∷ []

unfoldable pub check_tuple : List Pattern → Span → List Diagnostic → List Diagnostic
check_tuple arm_patterns match_span diagnostics =
    if any covers_tuple arm_patterns
    then diagnostics
    else diagnostics
      ++ non_exhaustive match_span
          (text "tuple match requires an irrefutable tuple or catch-all pattern")
        ∷ []

-- The match on `scrutinee_ty`.
unfoldable pub check_by_type : Ty → List Pattern → Span → List Diagnostic → List Diagnostic
unfolding check_named_variants_exhaustiveness check_bool_exhaustiveness check_tuple check_catchall
check_by_type (Ty.named name args) arms at diagnostics =
    if text_eq name (text "Result")
    then check_named_variants_exhaustiveness result_variants arms at diagnostics
    else if text_eq name (text "Option")
    then check_named_variants_exhaustiveness option_variants arms at diagnostics
    else check_catchall arms at diagnostics
check_by_type Ty.bool arms at diagnostics = check_bool_exhaustiveness arms at diagnostics
check_by_type (Ty.tuple items) arms at diagnostics = check_tuple arms at diagnostics
check_by_type Ty.unknown arms at diagnostics = diagnostics
check_by_type _ arms at diagnostics = check_catchall arms at diagnostics

unfoldable pub check_exhaustiveness :
    Ty → Option EnumDecl → List Pattern → Span → List Diagnostic → List Diagnostic
unfolding check_by_type
check_exhaustiveness scrutinee_ty (some decl) arms at diagnostics =
    check_named_variants_exhaustiveness (declared_variants decl.variants) arms at diagnostics
check_exhaustiveness scrutinee_ty none arms at diagnostics =
    check_by_type scrutinee_ty arms at diagnostics
