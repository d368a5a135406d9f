-- ===== src/Tests/Effects.antt =====
-- The check of effects at a small program: `load` declares `fs` and reads a file, `quiet` declares nothing and
-- calls `load`, and `apply` calls its parameter.
use yabumi.Common.{
  ◌==◌, false, List, [], ◌∷◌, ◌++◌, All, any, get_elem?, Option, some, none, if◌then◌else◌, text,
  text_eq, ◌≡◌, ◌↔◌, refl, arith,
}
use yabumi.Common.TextMap.{get}
use yabumi.Ast.Decl.{FunctionDecl, Param}
use yabumi.Ast.Expr.{Expr, expr, ident, method_call, no_args}
use yabumi.Ast.Pattern.{NodeId}
use yabumi.Ast.TypeAnn.{TypeAnn, TypeAnnKind, TypeAnns}
use yabumi.Diagnostics.Diagnostic.{Diagnostic}
use yabumi.Effects.CallEffects.{effects_from_names, type_effects, effect_of_call_site}
use yabumi.Effects.CallEffects.Bounds.{Flagged}
use yabumi.Effects.Check.{
  check_function_effects, check_program_effects, checked_decls, put_masks, unknown_name,
}
use yabumi.Effects.Check.Laws.{Reports, check_function_effects-first_beyond, first_beyond}
use yabumi.Effects.Check.Whole.{Passes, check_program_effects-accepts}
use yabumi.Effects.Forwarding.{compute_hof_forwarding}
use yabumi.Effects.Forwarding.Laws.{forwards, get_elem?-compute_hof_forwarding}
use yabumi.Effects.Site.{CallSite}
use yabumi.Effects.Walk.{walk_block_calls}
use yabumi.Eval.Program.{Program}
use yabumi.Types.Effects.{from_name, is_subset_of, union}
use yabumi.Types.Namespace.{NamespaceId}
use yabumi.Tests.Script.{at, call_of, declare, return_block, var, int_ann, resolutions}

abbrev in_namespace : NodeId → Option NamespaceId
in_namespace id = if id == 300 then some NamespaceId.fs else none

abbrev read_call : Expr
read_call =
    expr 301 (method_call (expr 300 (ident (text "fs")) at) (text "read") TypeAnns.none no_args) at

abbrev load : FunctionDecl
load = record (declare (text "load") [] (return_block read_call)) { effects = text "fs" ∷ [] }

abbrev quiet : FunctionDecl
quiet = declare (text "quiet") [] (return_block (call_of (text "load") no_args))

abbrev f_param : List Param
f_param =
    record {
      name = text "f";
      ty = TypeAnn.type_ann (TypeAnnKind.function TypeAnns.none [] int_ann) at;
      span = at;
    }
    ∷ []

abbrev apply : FunctionDecl
apply = declare (text "apply") f_param (return_block (call_of (text "f") no_args))

abbrev effectful : Program
effectful = record {
  functions = (text "load", load) ∷ (text "quiet", quiet) ∷ (text "apply", apply) ∷ [];
  structs = [];
  enums = [];
  consts = [];
  resolutions = record resolutions { namespace_ref = in_namespace };
  abort_process_on_par_panic = false;
}

effectful-Flagged : Flagged effectful
unfolding type_effects
effectful-Flagged e = tt

get_elem?-compute_hof_forwarding_example :
    get_elem? (compute_hof_forwarding apply) 0
    ≡ some (any (forwards apply 0) (walk_block_calls apply.body))
get_elem?-compute_hof_forwarding_example = get_elem?-compute_hof_forwarding apply 0 (omega arith)

quiet_known : unknown_name quiet.effects ≡ none
unfolding unknown_name
quiet_known = refl

check_function_effects-first_beyond_example :
    (first_beyond effectful (effects_from_names quiet.effects) (walk_block_calls quiet.body) ≡ none
      → check_function_effects quiet effectful [] ≡ [])
    × ((site : CallSite)
        → first_beyond effectful (effects_from_names quiet.effects) (walk_block_calls quiet.body)
          ≡ some site
        → (d : Diagnostic) × (check_function_effects quiet effectful [] ≡ [] ++ d ∷ [])
          × Reports quiet site d)
check_function_effects-first_beyond_example =
    check_function_effects-first_beyond quiet effectful effectful-Flagged [] quiet_known

-- The call of `load` in `quiet` is the first that goes beyond.
quiet_beyond :
    first_beyond effectful (effects_from_names quiet.effects) (walk_block_calls quiet.body)
    ≡ some (CallSite.call at (var (text "load")) no_args)
unfolding first_beyond effects_from_names walk_block_calls is_subset_of effect_of_call_site get
    text_eq from_name union
quiet_beyond = refl

check_program_effects-accepts_example :
    ((check_program_effects effectful []).1 ≡ [])
    ↔ All (Passes (put_masks (checked_decls effectful) effectful)) (checked_decls effectful)
check_program_effects-accepts_example = check_program_effects-accepts effectful effectful-Flagged
