-- ===== src/Effects/Check/Whole.antt =====
-- What the check of the whole program says, in terms of the names of the effects.
use yabumi.Common.{
  ◌<◌, Bool, true, false, ◌&&◌, List, [], ◌∷◌, ◌++◌, all, All, some, none, Text, ◌≡◌, ◌↔◌, refl,
  sym, ◌∙◌, arith, Bool-cases, Option-cases, inl, inr, &&-true,
}
use yabumi.Ast.Decl.{FunctionDecl}
use yabumi.Diagnostics.Diagnostic.{Diagnostic}
use yabumi.Effects.CallEffects.{effect_of_call_site, effects_from_names, type_effects}
use yabumi.Effects.CallEffects.Bounds.{Flagged, effect_of_call_site-below, effects_from_names-below}
use yabumi.Effects.Check.{
  check_function_effects, check_functions, check_program_effects, checked_decls, put_masks,
  unknown_effect, unknown_name,
}
use yabumi.Effects.Check.Laws.{accepts, check_function_effects-first_beyond, first_beyond, is_none}
use yabumi.Effects.Site.{CallSite}
use yabumi.Effects.Walk.{walk_block_calls}
use yabumi.Eval.Program.{Program}
use yabumi.Types.Effects.{EffectSet, is_subset_of, names}
use yabumi.Types.Effects.Laws.{has, is_subset_of-names}

-- Every name of an effect of the call is a name of a declared one.
abbrev pub Declared : Program → EffectSet → CallSite → Type 0
Declared program declared site =
    all (has (names declared)) (names (effect_of_call_site program site)) ≡ true

abbrev pub Passes : Program → FunctionDecl → Type 0
Passes program decl =
    (unknown_name decl.effects ≡ none)
    × All (Declared program (effects_from_names decl.effects)) (walk_block_calls decl.body)

abbrev is_nil : List Diagnostic → Bool
is_nil [] = true
is_nil (d ∷ ds) = false

is_nil_iff : (ds : List Diagnostic) → (is_nil ds ≡ true) ↔ (ds ≡ [])
is_nil_iff [] = (λ h. refl, λ h. refl)
is_nil_iff (d ∷ ds) = ground arith

is_nil-append : (ds : List Diagnostic) (d : Diagnostic) → is_nil (ds ++ d ∷ []) ≡ false
is_nil-append [] d = refl
is_nil-append (e ∷ ds) d = refl

module _ (program : Program) (flagged : Flagged program) where
  first_beyond_iff :
      (declared : EffectSet) (sites : List CallSite)
      → declared < 64
      → (is_none (first_beyond program declared sites) ≡ true)
        ↔ All (Declared program declared) sites
  unfolding first_beyond
  first_beyond_iff declared [] d = (λ h. tt, λ h. refl)
  first_beyond_iff declared (site ∷ sites) d =
      let (to, from) = first_beyond_iff declared sites d in
      let same =
        is_subset_of-names (effect_of_call_site program site) declared
          (effect_of_call_site-below program flagged site) d in
      elim (Bool-cases (is_subset_of (effect_of_call_site program site) declared)) [
        | inl q ↦ rw q (λ h. (sym same ∙ q, to h), λ h. from h.1)
        | inr q ↦ rw q (λ h. cc, λ (h, rest). let e = same ∙ h in cc)
      ]

  accepts_iff : (decl : FunctionDecl) → (accepts decl program ≡ true) ↔ Passes program decl
  accepts_iff decl =
      let (to, from) =
        first_beyond_iff (effects_from_names decl.effects) (walk_block_calls decl.body)
          (effects_from_names-below decl.effects) in
      elim (Option-cases (unknown_name decl.effects)) [
        | inl e ↦ rw e (λ h. (refl, to h), λ h. from h.1)
        | inr (n, e) ↦ rw e (λ h. cc, λ h. cc)
      ]

  unknown_reported :
      (decl : FunctionDecl) (name : Text) (ds : List Diagnostic)
      → unknown_name decl.effects ≡ some name
      → check_function_effects decl program ds ≡ ds ++ unknown_effect decl name ∷ []
  unfolding check_function_effects
  unknown_reported decl name ds e = rw e refl

  -- Where nothing was reported before, nothing is reported exactly if the function is accepted.
  check_function_effects-is_nil :
      (decl : FunctionDecl) (ds : List Diagnostic)
      → is_nil (check_function_effects decl program ds) ≡ (is_nil ds && accepts decl program)
  check_function_effects-is_nil decl ds = elim (Option-cases (unknown_name decl.effects)) [
    | inr (name, e) ↦ rw (unknown_reported decl name ds e, is_nil-append ds, e) (ground arith)
    | inl e ↦
        let (pass, fail) = check_function_effects-first_beyond decl program flagged ds e in
        elim (Option-cases
          (first_beyond program (effects_from_names decl.effects) (walk_block_calls decl.body))) [
            | inl w ↦ rw (pass w, e, w) (ground arith)
            | inr (site, w) ↦
                let (d, reported, at) = fail site w in
                rw (reported, is_nil-append ds d, e, w) (ground arith)
          ]
  ]

  check_functions-is_nil :
      (decls : List FunctionDecl) (ds : List Diagnostic)
      → is_nil (check_functions decls program ds)
        ≡ (is_nil ds && all (λ decl. accepts decl program) decls)
  unfolding check_functions
  check_functions-is_nil [] ds = ground arith
  check_functions-is_nil (decl ∷ decls) ds = ground (
    arith,
    check_functions-is_nil decls (check_function_effects decl program ds),
    check_function_effects-is_nil decl ds,
  )

  all_accepted :
      (decls : List FunctionDecl)
      → (all (λ decl. accepts decl program) decls ≡ true) ↔ All (Passes program) decls
  all_accepted [] = (λ h. tt, λ h. refl)
  all_accepted (decl ∷ decls) =
      let (to, from) = accepts_iff decl in
      let (to', from') = all_accepted decls in
      (
        λ h. let (p, q) = &&-true (accepts decl program) _ h in (to p, to' q),
        λ (p, q). rw (from p) (from' q),
      )

put_masks-Flagged :
    (decls : List FunctionDecl) (program : Program)
    → Flagged program
    → Flagged (put_masks decls program)
unfolding put_masks type_effects
put_masks-Flagged [] program flagged = flagged
put_masks-Flagged (decl ∷ decls) program flagged = put_masks-Flagged decls _ flagged

-- Where the types that the checker recorded have sets of the six flags, the check of a program reports
-- nothing exactly if every function but the top level, and every method, declares names of effects only,
-- and each call in its body has no effect but those it declares, names compared with names; the effects
-- of a call include those of the arguments that the masks, which are computed first, say are forwarded.
pub check_program_effects-accepts :
    (program : Program)
    → Flagged program
    → ((check_program_effects program []).1 ≡ [])
      ↔ All (Passes (put_masks (checked_decls program) program)) (checked_decls program)
unfolding check_program_effects
check_program_effects-accepts program flagged =
    let masked = put_masks (checked_decls program) program in
    let ok = put_masks-Flagged (checked_decls program) program flagged in
    let (to, from) = all_accepted masked ok (checked_decls program) in
    let (nil, empty) = is_nil_iff (check_functions (checked_decls program) masked []) in
    let e = check_functions-is_nil masked ok (checked_decls program) [] in
    (λ h. to (sym e ∙ empty h), λ h. nil (e ∙ from h))
