-- ===== src/Eval/Steps.antt =====
-- src/eval/expr.rs and src/eval/call.rs: the steps of the evaluation that lie between the evaluations of
-- subexpressions. A step that goes on with one of these takes it as an argument.
pub mod Keeps
pub mod Copy
use yabumi.Common.{
  ℕ, Bool, true, false, ◌&&◌, List, [], ◌∷◌, ◌++◌, Option, some, none, if◌then◌else◌, Text, text,
  text_eq, set,
}
use yabumi.Ast.Expr.{
  Expr, expr, ident, Args, no_args, cons_arg, LambdaParam, Exprs, no_exprs, cons_expr, ParKind,
  BinaryOp, and, or,
}
use yabumi.Types.Resolutions.{CallKind, function_call, struct_init, enum_variant_init, closure_call}
use yabumi.Types.Namespace.{NamespaceId}
use yabumi.Ast.Pattern.{NodeId}
use yabumi.Diagnostics.Position.{Span}
use yabumi.Common.TextMap.{get}
use yabumi.Eval.Clone.{clone_expr, clone_params}
use yabumi.Eval.Env.{Scope}
use yabumi.Eval.Call.{
  declared, variant_of, field_names_of, filled, call_closure, Calls, empty_slots, call_named,
  lambda_names, captured_of,
}
use yabumi.Eval.Call.Builtin.{
  on_namespace, namespace_of, namespace_const, field_read, as_bool, as_str, as_key, index_read,
  tuple_read, eval_ident, question, is_lvalue_shaped, lvalue_root_is_local, is_flat_builtin,
  assert_that,
}
use yabumi.Eval.Call.Dispatch.{fstring_text, flat_builtin, dispatch_readonly, invoke_pipe_call}
use yabumi.Eval.Call.Mutation.{Mutation, classify_mutation, mutate}
use yabumi.Eval.Env.{Environment, bind, bind_all, visible_bindings, snapshot_for_par}
use yabumi.Eval.Float.{FloatOps}
use yabumi.Eval.Flow.{Flow, Eval, pure, leave, lift, asks, does, update, scoped, ◌>>=◌}
use yabumi.Eval.Host.{Host}
use yabumi.Eval.Lvalue.{
  Place, PlacePath, PlaceStep, resolve_captured_place, assign_place, assign_name, wrap_return,
}
use yabumi.Eval.Match.{Bindings, try_match_pattern}
use yabumi.Eval.Ops.{eval_unary, eval_binary}
use yabumi.Eval.Panic.{Outcome, ok, abort, unreachable}
use yabumi.Eval.Program.{Program, position_of}
use yabumi.Eval.Value.{Value, Values, nil, cons, CallTarget, Captured, LambdaBody}
use yabumi.Eval.Value.Key.{insert, set_insert}

abbrev pub id_of : Expr → NodeId
id_of (expr id kind at) = id

abbrev pub span_of : Expr → Span
span_of (expr id kind at) = at

abbrev pub first_arg_id : Args → Option NodeId
first_arg_id no_args = none
first_arg_id (cons_arg name e placeholder rest) = some (id_of e)

-- `append_step`
abbrev pub append_step : PlacePath → PlaceStep → PlacePath
append_step path s = record { root = path.root; steps = path.steps ++ s ∷ [] }

abbrev pub here_of : Outcome Place → Outcome Value
here_of (ok place) = ok place.here
here_of (abort fault) = abort fault
here_of unreachable = unreachable

abbrev pub read_place : Program → PlacePath → Environment → Outcome Value
read_place program path env = here_of (resolve_captured_place path env program false)

-- The slot of a named argument of a struct's construction.
abbrev pub slot_of : List Text → Option Text → Outcome ℕ
slot_of names none = unreachable
slot_of names (some name) = position_of name names

abbrev pub par_value : ParKind → Values → Value
par_value ParKind.list vs = Value.list vs
par_value ParKind.tuple vs = Value.tuple vs

abbrev pub new_enum : Text × ℕ → Text → Values → Value
new_enum (type_name, i) name fields = Value.enum type_name i name fields

abbrev pub closure_of : List LambdaParam → Expr → Outcome Scope → Outcome Value
closure_of params body (ok scope) = ok (
    Value.closure (CallTarget.lambda (record { params = params; body = body })) (captured_of scope))
closure_of params body (abort fault) = abort fault
closure_of params body unreachable = unreachable

-- `eval_lambda`: a copy of the lambda with what is visible where it is evaluated.
unfoldable pub lambda_value : List LambdaParam → Expr → Environment → Outcome Value
unfolding clone_expr clone_params
lambda_value params body env =
    closure_of (clone_params params) (clone_expr body) (visible_bindings env)

module _ {W : Type 0} where
  -- The arm's body in a scope with the bindings, or the next arm.
  unfoldable pub take_arm : Option Bindings → Eval W Value → Eval W Value → Eval W Value
  take_arm none body rest = rest
  take_arm (some bindings) body rest = scoped (update (bind_all bindings) >>= λ _. body)

  unfoldable pub branch_value : Flow Value → Eval W Value
  branch_value (Flow.value v) = pure v
  branch_value (Flow.return v) = lift unreachable

  unfoldable pub as_closure : Value → (CallTarget → Captured → Eval W Value) → Eval W Value
  as_closure (Value.closure target held) next = next target held
  as_closure _ next = lift unreachable

  unfoldable pub on_call : Option CallKind → (fn con var closed flat : Eval W Value) → Eval W Value
  on_call none fn con var closed flat = flat
  on_call (some function_call) fn con var closed flat = fn
  on_call (some struct_init) fn con var closed flat = con
  on_call (some enum_variant_init) fn con var closed flat = var
  on_call (some closure_call) fn con var closed flat = closed

  -- `and` and `or` evaluate their right side where the left one does not decide.
  unfoldable pub eval_binary_expr :
      FloatOps → BinaryOp → Span → Eval W Value → Eval W Value → Eval W Value
  eval_binary_expr floats and at left right =
      left >>= λ l. lift (as_bool l) >>= λ b. if b then right else pure (Value.bool false)
  eval_binary_expr floats or at left right =
      left >>= λ l. lift (as_bool l) >>= λ b. if b then pure (Value.bool true) else right
  eval_binary_expr floats op at left right =
      left >>= λ l. right >>= λ r. lift (eval_binary floats op l r at)

abbrev pub is_local_place : Expr → Environment → Outcome Bool
is_local_place e env = if is_lvalue_shaped e then lvalue_root_is_local e env else ok false

module _ (host : Host) (program : Program) (calls : Calls (host.World)) where
  -- `eval_mutating_method` and `eval_readonly_method` on a receiver that is a place.
  unfoldable pub finish_method :
      Option Mutation
      → PlacePath
      → Value
      → Text
      → NodeId
      → Span
      → Eval (host.World) Values
      → Eval (host.World) Value
  finish_method none path snapshot method receiver at args = args >>= λ vs.
      does (dispatch_readonly host program calls (some receiver) at snapshot method vs)
  finish_method (some mutation) path snapshot method receiver at args = args >>= λ vs.
      does (mutate host calls mutation snapshot method vs at) >>= λ (result, self).
      update (λ env. assign_place path self env program false) >>= λ _. pure result

  -- `eval_method_call` on a place.
  unfoldable pub method_on_place :
      PlacePath → Text → NodeId → Span → Eval (host.World) Values → Eval (host.World) Value
  unfolding finish_method
  method_on_place path method receiver at args = asks (read_place program path) >>= λ snapshot.
      finish_method (classify_mutation program snapshot method) path snapshot method receiver at
        args

  -- One worker takes the branches of a `par` in turn, each in a snapshot of the environment.
  unfoldable pub run_branches : Exprs → Environment → Eval (host.World) Values
  unfolding branch_value
  run_branches no_exprs snapshot = pure nil
  run_branches (cons_expr e rest) snapshot = does (calls.worker e snapshot) >>= λ flow.
      branch_value flow >>= λ v. run_branches rest snapshot >>= λ vs. pure (cons v vs)

  unfoldable pub eval_par : ParKind → Exprs → Eval (host.World) Value
  unfolding run_branches
  eval_par kind no_exprs = pure (par_value kind nil)
  eval_par kind (cons_expr e rest) = asks snapshot_for_par >>= λ snapshot.
      run_branches (cons_expr e rest) snapshot >>= λ vs. pure (par_value kind vs)

  -- `eval_user_function_call`, `eval_enum_variant_init`, `eval_struct_init` and `eval_closure_call`.
  unfoldable pub eval_user_function_call :
      Outcome Text → Eval (host.World) Values → Eval (host.World) Value
  eval_user_function_call callee args = lift callee >>= λ name.
      lift (declared (get name program.functions)) >>= λ decl.
      args >>= λ vs. does (calls.function decl vs)

  unfoldable pub eval_enum_variant_init :
      Outcome Text → Eval (host.World) Values → Eval (host.World) Value
  eval_enum_variant_init callee args = lift callee >>= λ name.
      lift (variant_of program name) >>= λ info. args >>= λ fields. pure (new_enum info name fields)

  unfoldable pub eval_struct_init :
      Outcome Text → (List Text → Eval (host.World) (List (Option Value))) → Eval (host.World) Value
  eval_struct_init callee fields = lift callee >>= λ name.
      lift (field_names_of program name) >>= λ names.
      fields names >>= λ slots. lift (filled slots) >>= λ vs. pure (Value.struct name vs)

  unfoldable pub eval_closure_call :
      Eval (host.World) Value → Eval (host.World) Values → Eval (host.World) Value
  unfolding as_closure
  eval_closure_call callee args = callee >>= λ v.
      as_closure v (λ target held. args >>= λ vs. does (call_closure program calls target held vs))

  -- `eval_method_call`: the receiver is a namespace, a place with a local variable at its root, or any
  -- other value. `id` and `first` are the ids of the call and of its first argument.
  unfoldable pub eval_method_call :
      Expr
      → Text
      → NodeId
      → Option NodeId
      → Span
      → Eval (host.World) PlacePath
      → Eval (host.World) Value
      → Eval (host.World) Values
      → Eval (host.World) Value
  unfolding method_on_place on_namespace
  eval_method_call receiver method id first at place value args =
      on_namespace (namespace_of program receiver)
        (λ ns. args >>= λ vs. does (host.namespace_call ns method vs id first))
        (asks (is_local_place receiver) >>= λ local.
          if local
          then (place >>= λ path. method_on_place path method (id_of receiver) at args)
          else (value >>= λ v. args >>= λ vs.
              does (dispatch_readonly host program calls (some (id_of receiver)) at v method vs)))

  unfoldable pub eval_field_access : Expr → Text → Eval (host.World) Value → Eval (host.World) Value
  unfolding on_namespace
  eval_field_access target field value =
      on_namespace (namespace_of program target) (λ ns. lift (namespace_const ns field))
        (value >>= λ v. lift (field_read program v field))

-- The name that a call's callee is.
abbrev pub callee_name : Expr → Outcome Text
callee_name (expr id (ident name) at) = ok name
callee_name _ = unreachable
