-- ===== src/Effects/CallEffects/Bounds.antt =====
-- The effects of a call are a set of the six flags, where those in the types that the checker recorded are.
use yabumi.Common.{
  ◌<◌, Bool, true, false, List, [], ◌∷◌, Option, some, none, Text, arith, if◌then◌else◌,
}
use yabumi.Ast.Expr.{Expr, Args, no_args, cons_arg}
use yabumi.Effects.CallEffects.{
  all_arg_effects, call_by_type, declared_function, effect_of_builtin_method, effect_of_call,
  effect_of_call_site, effect_of_method_call, effect_of_pipe_call, effects_from_names,
  effects_of_declared, forwarded_arg_effects, forwarded_pipe_effects, forwarded_source_effects,
  forwarded_stage_effects, join, join_names, namespace_effect, namespace_of_callee, or_empty,
  type_effects, user_method, id_of, if_some,
}
use yabumi.Effects.Site.{CallSite}
use yabumi.Eval.Program.{Program}
use yabumi.Types.Effects.{EffectSet, from_name}
use yabumi.Types.Effects.Laws.{union-lub}
use yabumi.Types.Namespace.{NamespaceId}
use yabumi.Ast.Decl.{FunctionDecl}

-- An optional set is one of the six flags.
abbrev pub InFlags : Option EffectSet → Type 0
InFlags none = Unit
InFlags (some e) = e < 64

-- The checker builds the effects in a type from the flags and by unions.
abbrev pub Flagged : Program → Type 0
Flagged program = (e : Expr) → InFlags (type_effects program e)

join-below : (acc : EffectSet) (o : Option EffectSet) → acc < 64 → InFlags o → join acc o < 64
join-below acc none h i = h
join-below acc (some e) h i = let (p, q, below, r) = union-lub acc e 0 h i (omega arith) in below

from_name-InFlags : (n : Text) → InFlags (from_name n)
unfolding from_name
from_name-InFlags n = ground arith

join_names-below : (acc : EffectSet) (ns : List Text) → acc < 64 → join_names acc ns < 64
unfolding join_names
join_names-below acc [] h = h
join_names-below acc (n ∷ ns) h =
    join_names-below (join acc (from_name n)) ns
      (join-below acc (from_name n) h (from_name-InFlags n))

pub effects_from_names-below : (ns : List Text) → effects_from_names ns < 64
unfolding effects_from_names
effects_from_names-below ns = join_names-below 0 ns (omega arith)

namespace_effect-below : (ns : NamespaceId) → namespace_effect ns < 64
unfolding namespace_effect
namespace_effect-below ns = grind arith

or_empty-below : (o : Option EffectSet) → InFlags o → or_empty o < 64
or_empty-below none h = omega arith
or_empty-below (some e) h = h

if_some-below :
    {A : Type 0} (o : Option A) (f : A → EffectSet) (d : EffectSet)
    → ((a : A) → f a < 64)
    → d < 64
    → if_some o f d < 64
if_some-below none f d hf hd = hd
if_some-below (some a) f d hf hd = hf a

module _ (program : Program) (flagged : Flagged program) where
  joined :
      (b : Bool) (e : Expr) (acc : EffectSet)
      → acc < 64
      → (if b then join acc (type_effects program e) else acc) < 64
  joined true e acc h = join-below acc (type_effects program e) h (flagged e)
  joined false e acc h = h

  forwarded_arg_effects-below :
      (mask : List Bool) (args : Args) (acc : EffectSet)
      → acc < 64
      → forwarded_arg_effects program mask args acc < 64
  unfolding forwarded_arg_effects
  forwarded_arg_effects-below [] args acc h = h
  forwarded_arg_effects-below (b ∷ mask) no_args acc h = h
  forwarded_arg_effects-below (b ∷ mask) (cons_arg name e placeholder rest) acc h =
      forwarded_arg_effects-below mask rest _ (joined b e acc h)

  forwarded_stage_effects-below :
      (mask : List Bool) (args : Args) (source : Expr) (acc : EffectSet)
      → acc < 64
      → forwarded_stage_effects program mask args source acc < 64
  unfolding forwarded_stage_effects
  forwarded_stage_effects-below [] args source acc h = h
  forwarded_stage_effects-below (b ∷ mask) no_args source acc h = h
  forwarded_stage_effects-below (b ∷ mask) (cons_arg name e placeholder rest) source acc h =
      forwarded_stage_effects-below mask rest source _
        (joined b (if placeholder then source else e) acc h)

  forwarded_source_effects-below :
      (mask : List Bool) (source : Expr) (acc : EffectSet)
      → acc < 64
      → forwarded_source_effects program mask source acc < 64
  unfolding forwarded_source_effects
  forwarded_source_effects-below [] source acc h = h
  forwarded_source_effects-below (b ∷ mask) source acc h = joined b source acc h

  forwarded_pipe_effects-below :
      (mask : List Bool) (args : Option Args) (source : Expr) (acc : EffectSet)
      → acc < 64
      → forwarded_pipe_effects program mask args source acc < 64
  unfolding forwarded_pipe_effects
  forwarded_pipe_effects-below mask none source acc h =
      forwarded_source_effects-below mask source acc h
  forwarded_pipe_effects-below mask (some args) source acc h =
      forwarded_stage_effects-below mask args source acc h

  all_arg_effects-below :
      (args : Args) (acc : EffectSet) → acc < 64 → all_arg_effects program args acc < 64
  unfolding all_arg_effects
  all_arg_effects-below no_args acc h = h
  all_arg_effects-below (cons_arg name e placeholder rest) acc h =
      all_arg_effects-below rest _ (join-below acc (type_effects program e) h (flagged e))

  effects_of_declared-below :
      (decl : FunctionDecl) (args : Args) → effects_of_declared program decl args < 64
  unfolding effects_of_declared
  effects_of_declared-below decl args =
      forwarded_arg_effects-below _ args _ (effects_from_names-below decl.effects)

  call_by_type-below : (callee : Expr) → call_by_type program callee < 64
  call_by_type-below callee = or_empty-below (type_effects program callee) (flagged callee)

  effect_of_call-below : (callee : Expr) (args : Args) → effect_of_call program callee args < 64
  unfolding effect_of_call
  effect_of_call-below callee args =
      if_some-below (declared_function program callee) _ _ (λ f. effects_of_declared-below f args)
        (call_by_type-below callee)

  effect_of_builtin_method-below :
      (name : Text) (args : Args) → effect_of_builtin_method program name args < 64
  unfolding effect_of_builtin_method
  effect_of_builtin_method-below name args =
      ground (arith, all_arg_effects-below args 0 (omega arith))

  effect_of_method_call-below :
      (receiver : Expr) (name : Text) (args : Args)
      → effect_of_method_call program receiver name args < 64
  unfolding effect_of_method_call
  effect_of_method_call-below receiver name args =
      if_some-below (program.resolutions.namespace_ref (id_of receiver)) _ _ namespace_effect-below
        (if_some-below (user_method program (program.resolutions.expr_ty (id_of receiver)) name) _ _
          (λ m. effects_of_declared-below m args) (effect_of_builtin_method-below name args))

  effect_of_pipe_call-below :
      (callee source : Expr) (args : Option Args)
      → effect_of_pipe_call program callee source args < 64
  unfolding effect_of_pipe_call
  effect_of_pipe_call-below callee source args =
      if_some-below (namespace_of_callee program callee) _ _ namespace_effect-below (
        if_some-below (declared_function program callee) _ _
          (λ f. forwarded_pipe_effects-below _ args source _ (effects_from_names-below f.effects))
          (call_by_type-below callee))

  pub effect_of_call_site-below : (site : CallSite) → effect_of_call_site program site < 64
  unfolding effect_of_call_site
  effect_of_call_site-below (CallSite.call at callee args) = effect_of_call-below callee args
  effect_of_call_site-below (CallSite.method at receiver name args) =
      effect_of_method_call-below receiver name args
  effect_of_call_site-below (CallSite.pipe at callee source args) =
      effect_of_pipe_call-below callee source args
