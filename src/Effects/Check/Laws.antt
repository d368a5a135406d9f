-- ===== src/Effects/Check/Laws.antt =====
-- What the check of a function says of the calls in its body.
use yabumi.Common.{
  ◌<◌, Bool, true, false, ◌&&◌, List, [], ◌∷◌, ◌++◌, Option, some, none, if◌then◌else◌, ◌≡◌, refl,
  sym, ap, ◌∙◌, arith, Bool-cases, inl, inr,
}
use yabumi.Ast.Decl.{FunctionDecl}
use yabumi.Diagnostics.Codes.{impure_call_in_pure_function, undeclared_effect}
use yabumi.Diagnostics.Diagnostic.{Diagnostic}
use yabumi.Diagnostics.Position.{Span}
use yabumi.Effects.CallEffects.{effect_of_call_site, effects_from_names}
use yabumi.Effects.CallEffects.Bounds.{Flagged, effect_of_call_site-below, effects_from_names-below}
use yabumi.Effects.Check.{
  Gathered, add_site, check_function_effects, gather, nothing_gathered, or_span, report,
  unknown_name, violation,
}
use yabumi.Effects.Site.{CallSite, site_span}
use yabumi.Effects.Walk.{walk_block_calls}
use yabumi.Eval.Program.{Program}
use yabumi.Types.Effects.{EffectSet, is_subset_of, is_empty}
use yabumi.Types.Effects.Laws.{is_subset_of-empty, is_subset_of-union, union-lub}

-- The first call whose effects are not among the declared ones.
unfoldable pub first_beyond : Program → EffectSet → List CallSite → Option CallSite
first_beyond program declared [] = none
first_beyond program declared (site ∷ sites) =
    if is_subset_of (effect_of_call_site program site) declared
    then first_beyond program declared sites
    else some site

abbrev pub is_none : {A : Type 0} → Option A → Bool
is_none none = true
is_none (some a) = false

abbrev span_of : Option CallSite → Option Span
span_of none = none
span_of (some site) = some (site_span site)

or_span_assoc : (a b c : Option Span) → or_span (or_span a b) c ≡ or_span a (or_span b c)
or_span_assoc none b c = refl
or_span_assoc (some at) b c = refl

or_span_none : (a : Option Span) → or_span a none ≡ a
or_span_none none = refl
or_span_none (some at) = refl

subset_step :
    (a e : Bool) (o : Option CallSite) (site : CallSite)
    → ((a && e) && is_none o) ≡ (a && is_none (if e then o else some site))
subset_step true true o site = refl
subset_step true false o site = refl
subset_step false e o site = refl

span_step :
    (v : Option Span) (e : Bool) (o : Option CallSite) (site : CallSite)
    → or_span (or_span v (if e then none else some (site_span site))) (span_of o)
      ≡ or_span v (span_of (if e then o else some site))
span_step v true o site = ap (λ x. or_span x (span_of o)) (or_span_none v)
span_step v false o site = or_span_assoc v (some (site_span site)) (span_of o)

module _ (program : Program) (flagged : Flagged program) (declared : EffectSet)
    (d : declared < 64) where
  -- All effects together are declared exactly when those of each call are, and the span that is kept is
  -- that of the first call of which this is not so.
  gathered :
      (sites : List CallSite) (g : Gathered)
      → g.acc < 64
      → (is_subset_of ((gather program declared sites g).acc) declared
          ≡ (is_subset_of g.acc declared && is_none (first_beyond program declared sites)))
        × ((gather program declared sites g).violation_span
            ≡ or_span g.violation_span (span_of (first_beyond program declared sites)))
  unfolding gather first_beyond
  gathered [] g h = (ground arith, sym (or_span_none g.violation_span))
  gathered (site ∷ sites) g h =
      let e = effect_of_call_site program site in
      let below = effect_of_call_site-below program flagged site in
      let (_, _, united, _) = union-lub g.acc e 0 h below (omega arith) in
      let (subset, span) = gathered sites (add_site declared e (site_span site) g) united in
      (
        subset
            ∙ ap (λ b. b && is_none (first_beyond program declared sites))
                (is_subset_of-union g.acc e declared h below d)
            ∙ subset_step (is_subset_of g.acc declared) (is_subset_of e declared) _ site,
        span ∙ span_step g.violation_span (is_subset_of e declared) _ site,
      )

-- The check accepts the function: its names are effects, and no call goes beyond them.
abbrev pub accepts : FunctionDecl → Program → Bool
accepts decl program =
    is_none (unknown_name decl.effects)
    && is_none (first_beyond program (effects_from_names decl.effects) (walk_block_calls decl.body))

-- A report of the first such call: an impure call where nothing is declared.
abbrev pub Reports : FunctionDecl → CallSite → Diagnostic → Type 0
Reports decl site d =
    (d.span ≡ site_span site)
    × (d.code ≡ (
        if is_empty (effects_from_names decl.effects)
        then impure_call_in_pure_function
        else undeclared_effect))

violation-Reports :
    (decl : FunctionDecl) (g : Gathered) (site : CallSite)
    → g.violation_span ≡ some (site_span site)
    → Reports decl site (violation decl (effects_from_names decl.effects) g)
unfolding violation
violation-Reports decl g site e = elim (Bool-cases (is_empty (effects_from_names decl.effects))) [
  | inl q ↦ rw (q, e) (refl, refl)
  | inr q ↦ rw (q, e) (refl, refl)
]

report_eq :
    (decl : FunctionDecl) (declared : EffectSet) (g : Gathered) (diagnostics : List Diagnostic)
    → report decl declared g diagnostics ≡ (
        if is_subset_of g.acc declared
        then diagnostics
        else diagnostics ++ violation decl declared g ∷ [])
unfolding report
report_eq decl declared g diagnostics = refl

check_known :
    (decl : FunctionDecl) (program : Program) (diagnostics : List Diagnostic)
    → unknown_name decl.effects ≡ none
    → check_function_effects decl program diagnostics
      ≡ report decl
          (effects_from_names decl.effects)
          (gather program
            (effects_from_names decl.effects)
            (walk_block_calls decl.body)
            nothing_gathered)
          diagnostics
unfolding check_function_effects
check_known decl program diagnostics known = rw known refl

module _ (decl : FunctionDecl) (program : Program) (flagged : Flagged program) where
  -- Where every declared name is an effect and the types that the checker recorded have sets of the six
  -- flags, the check of a function adds nothing if the effects of every call in the body are among the
  -- declared ones; otherwise it adds one diagnostic, at the first call of which this is not so, with the
  -- code of an impure call if nothing is declared and of an undeclared effect if something is.
  pub check_function_effects-first_beyond :
      (diagnostics : List Diagnostic)
      → unknown_name decl.effects ≡ none
      → (first_beyond program (effects_from_names decl.effects) (walk_block_calls decl.body) ≡ none
          → check_function_effects decl program diagnostics ≡ diagnostics)
        × ((site : CallSite)
            → first_beyond program (effects_from_names decl.effects) (walk_block_calls decl.body)
              ≡ some site
            → (d : Diagnostic) × (check_function_effects decl program diagnostics
                ≡ diagnostics ++ d ∷ [])
              × Reports decl site d)
  check_function_effects-first_beyond diagnostics known =
      let declared = effects_from_names decl.effects in
      let sites = walk_block_calls decl.body in
      let g = gather program declared sites nothing_gathered in
      let d = effects_from_names-below decl.effects in
      let (subset, span) =
        gathered program flagged declared d sites nothing_gathered (omega arith) in
      let start = is_subset_of-empty declared d in
      (
        λ within.
            check_known decl program diagnostics known
            ∙ report_eq decl declared g diagnostics
            ∙ rw (subset, start, within) refl,
        λ site beyond. (
          violation decl declared g,
          check_known decl program diagnostics known
              ∙ report_eq decl declared g diagnostics
              ∙ rw (subset, start, beyond) refl,
          violation-Reports decl g site (span ∙ ap span_of beyond),
        ),
      )
