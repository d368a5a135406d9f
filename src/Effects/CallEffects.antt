-- ===== src/Effects/CallEffects.antt =====
-- src/effects/mod.rs: the effects of a call.
pub mod Bounds
use yabumi.Common.{Bool, List, [], ◌∷◌, Option, some, none, if◌then◌else◌, Text, text, text_eq}
use yabumi.Common.TextMap.{get}
use yabumi.Ast.Decl.{FunctionDecl, StructDecl}
use yabumi.Ast.Expr.{Expr, expr, ident, field_access, Args, no_args, cons_arg}
use yabumi.Ast.Pattern.{NodeId}
use yabumi.Effects.Site.{CallSite, is_stdlib_hof_method}
use yabumi.Eval.Program.{Program}
use yabumi.Types.Effects.{
  fs as fs_flag, net as net_flag, env as env_flag, proc as proc_flag, time as time_flag,
  rand as rand_flag, EffectSet, empty, union, from_name,
}
use yabumi.Types.Namespace.{NamespaceId}
use yabumi.Types.Ty.{Ty}

unfoldable pub namespace_effect : NamespaceId → EffectSet
namespace_effect NamespaceId.fs = fs_flag
namespace_effect NamespaceId.http = net_flag
namespace_effect NamespaceId.env = env_flag
namespace_effect NamespaceId.proc = proc_flag
namespace_effect NamespaceId.time = time_flag
namespace_effect NamespaceId.rand = rand_flag
namespace_effect _ = empty

-- The set, with that of the name where there is one.
abbrev pub join : EffectSet → Option EffectSet → EffectSet
join acc none = acc
join acc (some e) = union acc e

unfoldable pub join_names : EffectSet → List Text → EffectSet
join_names acc [] = acc
join_names acc (n ∷ ns) = join_names (join acc (from_name n)) ns

unfoldable pub effects_from_names : List Text → EffectSet
unfolding join_names
effects_from_names ns = join_names empty ns

abbrev pub as_function_effects : Option Ty → Option EffectSet
as_function_effects (some (Ty.function params effects ret)) = some effects
as_function_effects _ = none

abbrev pub id_of : Expr → NodeId
id_of (expr id kind at) = id

-- `if let Some(a) = o { f(a) } else { d }`
abbrev pub if_some : {A B : Type 0} → Option A → (A → B) → B → B
if_some none f d = d
if_some (some a) f d = f a

abbrev pub or_empty : Option EffectSet → EffectSet
or_empty none = empty
or_empty (some e) = e

abbrev pub or_no_mask : Option (List Bool) → List Bool
or_no_mask none = []
or_no_mask (some mask) = mask

-- `methods.iter().find(|m| m.name == method)`
unfoldable pub find_method : Text → List FunctionDecl → Option FunctionDecl
find_method name [] = none
find_method name (m ∷ ms) = if text_eq m.name name then some m else find_method name ms

module _ (program : Program) where
  -- The effects in the type that the checker gave the expression.
  unfoldable pub type_effects : Expr → Option EffectSet
  type_effects e = as_function_effects (program.resolutions.expr_ty (id_of e))

  unfoldable pub forwarded_arg_effects : List Bool → Args → EffectSet → EffectSet
  unfolding type_effects
  forwarded_arg_effects [] args acc = acc
  forwarded_arg_effects (forwarded ∷ mask) no_args acc = acc
  forwarded_arg_effects (forwarded ∷ mask) (cons_arg name e placeholder rest) acc =
      forwarded_arg_effects mask rest (if forwarded then join acc (type_effects e) else acc)

  -- The declared effects, and those of the arguments that the function forwards.
  unfoldable pub effects_of_declared : FunctionDecl → Args → EffectSet
  unfolding forwarded_arg_effects effects_from_names
  effects_of_declared decl args =
      forwarded_arg_effects (or_no_mask (program.resolutions.hof_forwarding decl.id)) args
        (effects_from_names decl.effects)

  abbrev pub declared_function : Expr → Option FunctionDecl
  declared_function (expr id (ident name) at) = get name program.functions
  declared_function _ = none

  abbrev pub call_by_type : Expr → EffectSet
  call_by_type callee = or_empty (type_effects callee)

  unfoldable pub effect_of_call : Expr → Args → EffectSet
  unfolding effects_of_declared type_effects
  effect_of_call callee args =
      if_some (declared_function callee) (λ f. effects_of_declared f args) (call_by_type callee)

  unfoldable pub all_arg_effects : Args → EffectSet → EffectSet
  unfolding type_effects
  all_arg_effects no_args acc = acc
  all_arg_effects (cons_arg name e placeholder rest) acc =
      all_arg_effects rest (join acc (type_effects e))

  abbrev struct_method : Option StructDecl → Text → Option FunctionDecl
  struct_method none name = none
  struct_method (some decl) name = find_method name decl.methods

  -- The method of a declared struct that the receiver's type has.
  abbrev pub user_method : Option Ty → Text → Option FunctionDecl
  user_method (some (Ty.named name args)) m = struct_method (get name program.structs) m
  user_method _ m = none

  unfoldable pub effect_of_builtin_method : Text → Args → EffectSet
  unfolding all_arg_effects is_stdlib_hof_method
  effect_of_builtin_method name args =
      if text_eq name (text "shuffle")
      then rand_flag
      else if is_stdlib_hof_method name
      then all_arg_effects args empty
      else empty

  unfoldable pub effect_of_method_call : Expr → Text → Args → EffectSet
  unfolding namespace_effect effects_of_declared effect_of_builtin_method find_method
  effect_of_method_call receiver name args =
      if_some (program.resolutions.namespace_ref (id_of receiver)) namespace_effect (
        if_some (user_method (program.resolutions.expr_ty (id_of receiver)) name)
          (λ m. effects_of_declared m args) (effect_of_builtin_method name args))

  -- The mask against the arguments of a stage: the source of the pipe is the first argument of a bare
  -- stage, and a placeholder stands for it.
  unfoldable pub forwarded_stage_effects : List Bool → Args → Expr → EffectSet → EffectSet
  unfolding type_effects
  forwarded_stage_effects [] args source acc = acc
  forwarded_stage_effects (forwarded ∷ mask) no_args source acc = acc
  forwarded_stage_effects (forwarded ∷ mask) (cons_arg name e placeholder rest) source acc =
      forwarded_stage_effects mask rest source
        (if forwarded then join acc (type_effects (if placeholder then source else e)) else acc)

  -- A bare stage has the source as its one argument.
  unfoldable pub forwarded_source_effects : List Bool → Expr → EffectSet → EffectSet
  unfolding type_effects
  forwarded_source_effects [] source acc = acc
  forwarded_source_effects (forwarded ∷ mask) source acc =
      if forwarded then join acc (type_effects source) else acc

  unfoldable pub forwarded_pipe_effects : List Bool → Option Args → Expr → EffectSet → EffectSet
  unfolding forwarded_source_effects forwarded_stage_effects
  forwarded_pipe_effects mask none source acc = forwarded_source_effects mask source acc
  forwarded_pipe_effects mask (some args) source acc = forwarded_stage_effects mask args source acc

  abbrev pub namespace_of_callee : Expr → Option NamespaceId
  namespace_of_callee (expr id (field_access target field) at) =
      program.resolutions.namespace_ref (id_of target)
  namespace_of_callee _ = none

  unfoldable pub effect_of_pipe_call : Expr → Expr → Option Args → EffectSet
  unfolding namespace_effect forwarded_pipe_effects effects_from_names type_effects
  effect_of_pipe_call callee source args = if_some (namespace_of_callee callee) namespace_effect (
      if_some (declared_function callee)
        (λ f.
          forwarded_pipe_effects (or_no_mask (program.resolutions.hof_forwarding f.id)) args source
            (effects_from_names f.effects))
        (call_by_type callee))

  unfoldable pub effect_of_call_site : CallSite → EffectSet
  unfolding effect_of_call effect_of_method_call effect_of_pipe_call
  effect_of_call_site (CallSite.call at callee args) = effect_of_call callee args
  effect_of_call_site (CallSite.method at receiver name args) =
      effect_of_method_call receiver name args
  effect_of_call_site (CallSite.pipe at callee source args) = effect_of_pipe_call callee source args
