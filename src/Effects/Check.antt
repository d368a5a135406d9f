-- ===== src/Effects/Check.antt =====
-- src/effects/mod.rs: `check_function_effects` and `check_program_effects`.
pub mod Laws
pub mod Whole
use yabumi.Common.{
  ℕ, zero, suc, ◌==◌, Bool, true, false, not, List, [], ◌∷◌, ◌++◌, Option, some, none,
  if◌then◌else◌, Text, text, text_eq,
}
use yabumi.Common.TextMap.{TextMap, get}
use yabumi.Ast.Decl.{FunctionDecl, StructDecl}
use yabumi.Ast.Pattern.{NodeId}
use yabumi.Diagnostics.Codes.{
  invalid_effect_name, impure_call_in_pure_function, undeclared_effect, ErrorCode,
}
use yabumi.Diagnostics.Diagnostic.{Diagnostic}
use yabumi.Diagnostics.Position.{Span}
use yabumi.Effects.CallEffects.{if_some, effect_of_call_site, effects_from_names}
use yabumi.Effects.Forwarding.{compute_hof_forwarding}
use yabumi.Effects.Site.{CallSite, site_span}
use yabumi.Effects.Walk.{walk_block_calls}
use yabumi.Eval.Program.{Program}
use yabumi.Types.Effects.{EffectSet, empty, union, is_subset_of, is_empty, from_name, names}
use yabumi.Types.Resolutions.{Resolutions}
use yabumi.Types.Ty.{comma_separated}

-- The name under which the driver registers the top-level statements.
abbrev pub entry_point_name : Text
entry_point_name = text "$entry"

-- What the walk of a body gathers: the effects so far, and the first call that goes beyond the declared.
pub record Gathered : Type 0 where
  pub acc : EffectSet
  pub violation_span : Option Span

abbrev pub or_span : Option Span → Option Span → Option Span
or_span none o = o
or_span (some at) o = some at

abbrev pub add_site : EffectSet → EffectSet → Span → Gathered → Gathered
add_site declared site_effect at g = record {
  acc = union g.acc site_effect;
  violation_span =
      or_span g.violation_span (if is_subset_of site_effect declared then none else some at);
}

unfoldable pub gather : Program → EffectSet → List CallSite → Gathered → Gathered
unfolding effect_of_call_site site_span
gather program declared [] g = g
gather program declared (site ∷ sites) g =
    gather program declared sites
      (add_site declared (effect_of_call_site program site) (site_span site) g)

-- The first name that is no effect.
unfoldable pub unknown_name : List Text → Option Text
unknown_name [] = none
unknown_name (n ∷ ns) = elim (from_name n) [ none ↦ some n | some e ↦ unknown_name ns ]

abbrev pub unknown_effect : FunctionDecl → Text → Diagnostic
unknown_effect decl name = record {
  code = invalid_effect_name;
  span = decl.span;
  message = text "unknown effect '" ++ (name ++ text "' in uses declaration");
}

abbrev pub span_or : Option Span → Span → Span
span_or none other = other
span_or (some at) other = at

abbrev impure_call : FunctionDecl → EffectSet → Span → Diagnostic
impure_call decl acc at = record {
  code = impure_call_in_pure_function;
  span = at;
  message =
      text "function '"
      ++ (decl.name
          ++ (text
                "' is a pure function with no uses declaration, but contains a call with effect {"
              ++ (comma_separated (names acc) ++ text "} (D-EFF-01)")));
}

abbrev undeclared : FunctionDecl → EffectSet → EffectSet → Span → Diagnostic
undeclared decl declared acc at = record {
  code = undeclared_effect;
  span = at;
  message =
      text "the effect {"
      ++ (comma_separated (names acc)
          ++ (text "} required by calls in function '"
              ++ (decl.name
                  ++ (text "' is not a superset of the declared uses {"
                      ++ (comma_separated (names declared) ++ text "} (D-FUNC-03)")))));
}

unfoldable pub violation : FunctionDecl → EffectSet → Gathered → Diagnostic
unfolding is_empty
violation decl declared g =
    let at = span_or g.violation_span decl.span in
    if is_empty declared then impure_call decl g.acc at else undeclared decl declared g.acc at

unfoldable pub report : FunctionDecl → EffectSet → Gathered → List Diagnostic → List Diagnostic
unfolding violation
report decl declared g diagnostics =
    if is_subset_of g.acc declared
    then diagnostics
    else diagnostics ++ violation decl declared g ∷ []

abbrev pub nothing_gathered : Gathered
nothing_gathered = record { acc = empty; violation_span = none }

unfoldable pub check_function_effects : FunctionDecl → Program → List Diagnostic → List Diagnostic
unfolding unknown_name report gather
check_function_effects decl program diagnostics =
    let declared = effects_from_names decl.effects in
    if_some (unknown_name decl.effects) (λ name. diagnostics ++ unknown_effect decl name ∷ [])
      (report decl declared (gather program declared (walk_block_calls decl.body) nothing_gathered)
        diagnostics)

unfoldable pub put_mask : NodeId → List Bool → Program → Program
put_mask id mask program = record program {
  resolutions = record (program.resolutions) {
    hof_forwarding = λ j. if j == id then some mask else program.resolutions.hof_forwarding j;
  };
}

unfoldable pub put_masks : List FunctionDecl → Program → Program
unfolding put_mask
put_masks [] program = program
put_masks (decl ∷ decls) program =
    put_masks decls (put_mask decl.id (compute_hof_forwarding decl) program)

unfoldable pub check_functions : List FunctionDecl → Program → List Diagnostic → List Diagnostic
unfolding check_function_effects
check_functions [] program diagnostics = diagnostics
check_functions (decl ∷ decls) program diagnostics =
    check_functions decls program (check_function_effects decl program diagnostics)

-- The declared functions but the top level, and the methods of the structs.
unfoldable pub function_decls : TextMap FunctionDecl → List FunctionDecl
function_decls [] = []
function_decls ((name, decl) ∷ functions) =
    if text_eq name entry_point_name
    then function_decls functions
    else decl ∷ function_decls functions

unfoldable pub method_decls : TextMap StructDecl → List FunctionDecl
method_decls [] = []
method_decls ((name, decl) ∷ structs) = decl.methods ++ method_decls structs

abbrev pub checked_decls : Program → List FunctionDecl
checked_decls program = function_decls program.functions ++ method_decls program.structs

-- First the masks of all, then the check of each.
unfoldable pub check_program_effects : Program → List Diagnostic → Program × List Diagnostic
unfolding put_masks check_functions
check_program_effects program diagnostics =
    let masked = put_masks (checked_decls program) program in
    (masked, check_functions (checked_decls program) masked diagnostics)
