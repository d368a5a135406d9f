-- ===== src/Eval/Steps/Copy.antt =====
-- What the evaluator reads of an expression without evaluating it is the same in a copy.
use mathlib.Core.Path.{ap, fun_ext}
use yabumi.Eval.Flow.{Eval, ◌>>≡◌, does}
use yabumi.Common.{List, Option, ◌≡◌, refl, Text}
use yabumi.Ast.Expr.{
  Expr, expr, ident, field_access, tuple_index, index, grouping, Exprs, no_exprs, cons_expr, Args,
  no_args, cons_arg, LambdaParam, ParKind,
}
use yabumi.Ast.Pattern.{NodeId}
use yabumi.Diagnostics.Position.{Span}
use yabumi.Eval.Clone.{clone_params, clone_expr, clone_exprs, clone_args}
use yabumi.Eval.Clone.Twice.{clone_params-twice, clone_expr-twice}
use yabumi.Eval.Call.{Calls}
use yabumi.Eval.Call.Builtin.{namespace_of, is_lvalue_shaped, lvalue_root_is_local}
use yabumi.Eval.Call.Dispatch.{invoke_pipe_call}
use yabumi.Eval.Env.{Environment}
use yabumi.Eval.Host.{Host}
use yabumi.Eval.Program.{Program}
use yabumi.Eval.Steps.{
  Value, PlacePath, eval_method_call, eval_field_access, id_of, span_of, first_arg_id, callee_name,
  lambda_value, eval_par, run_branches, is_local_place,
}
use yabumi.Eval.Value.{Values}

pub id_of-clone : (e : Expr) → id_of (clone_expr e) ≡ id_of e
unfolding clone_expr
id_of-clone (expr id kind at) = refl

pub span_of-clone : (e : Expr) → span_of (clone_expr e) ≡ span_of e
unfolding clone_expr
span_of-clone (expr id kind at) = refl

pub first_arg_id-clone : (args : Args) → first_arg_id (clone_args args) ≡ first_arg_id args
unfolding clone_expr
first_arg_id-clone no_args = refl
first_arg_id-clone (cons_arg name e placeholder rest) = rw (id_of-clone e)

pub callee_name-clone : (e : Expr) → callee_name (clone_expr e) ≡ callee_name e
unfolding clone_expr
callee_name-clone (expr id (ident name) at) = refl
callee_name-clone (expr id _ at) = refl

pub namespace_of-clone :
    (program : Program) (e : Expr) → namespace_of program (clone_expr e) ≡ namespace_of program e
unfolding clone_expr namespace_of
namespace_of-clone program (expr id (ident name) at) = refl
namespace_of-clone program (expr id _ at) = refl

shape-clone : (e : Expr) → is_lvalue_shaped (clone_expr e) ≡ is_lvalue_shaped e
unfolding clone_expr is_lvalue_shaped
shape-clone (expr id (ident name) at) = refl
shape-clone (expr id (field_access target field) at) = shape-clone target
shape-clone (expr id (tuple_index target i) at) = shape-clone target
shape-clone (expr id (index target key) at) = shape-clone target
shape-clone (expr id (grouping target) at) = shape-clone target
shape-clone (expr id _ at) = refl

root-clone :
    (e : Expr) (env : Environment)
    → lvalue_root_is_local (clone_expr e) env ≡ lvalue_root_is_local e env
unfolding clone_expr lvalue_root_is_local
root-clone (expr id (ident name) at) env = refl
root-clone (expr id (field_access target field) at) env = root-clone target env
root-clone (expr id (tuple_index target i) at) env = root-clone target env
root-clone (expr id (index target key) at) env = root-clone target env
root-clone (expr id (grouping target) at) env = root-clone target env
root-clone (expr id _ at) env = refl

pub is_local_place-clone : (e : Expr) → is_local_place (clone_expr e) ≡ is_local_place e
is_local_place-clone e = fun_ext λ env. rw (shape-clone e, root-clone e env)

pub lambda_value-clone :
    (params : List LambdaParam) (body : Expr)
    → lambda_value (clone_params params) (clone_expr body) ≡ lambda_value params body
unfolding lambda_value
lambda_value-clone params body =
    fun_ext λ env. rw (clone_params-twice params, clone_expr-twice body)

module _ (host : Host) (program : Program) (calls : Calls (host.World)) where
  pub invoke_pipe_call-clone :
      (callee : Expr) (args : Values)
      → invoke_pipe_call host program calls (clone_expr callee) args
        ≡ invoke_pipe_call host program calls callee args
  unfolding clone_expr invoke_pipe_call
  invoke_pipe_call-clone (expr id (ident name) at) args = refl
  invoke_pipe_call-clone (expr id (field_access (expr tid (ident n) tat) field) at) args = refl
  invoke_pipe_call-clone (expr id (field_access (expr tid _ tat) field) at) args = refl
  invoke_pipe_call-clone (expr id _ at) args = refl

  pub eval_method_call-clone :
      (receiver : Expr) (method : Text) (id : NodeId) (first : Option NodeId) (at : Span)
      (place : Eval (host.World) PlacePath) (value : Eval (host.World) Value)
      (args : Eval (host.World) Values)
      → eval_method_call host program calls
          (clone_expr receiver)
          method
          id
          first
          at
          place
          value
          args
        ≡ eval_method_call host program calls receiver method id first at place value args
  unfolding eval_method_call
  eval_method_call-clone receiver method id first at place value args =
      rw (namespace_of-clone program receiver, is_local_place-clone receiver, id_of-clone receiver)

  pub eval_field_access-clone :
      (target : Expr) (field : Text) (value : Eval (host.World) Value)
      → eval_field_access host program calls (clone_expr target) field value
        ≡ eval_field_access host program calls target field value
  unfolding eval_field_access
  eval_field_access-clone target field value = rw (namespace_of-clone program target)

  module _ (same : (e : Expr) → calls.worker (clone_expr e) ≡ calls.worker e) where
    run_branches-clone :
        (es : Exprs) (snapshot : Environment)
        → run_branches host program calls (clone_exprs es) snapshot
          ≡ run_branches host program calls es snapshot
    unfolding clone_expr run_branches
    run_branches-clone no_exprs snapshot = refl
    run_branches-clone (cons_expr e rest) snapshot =
        ap (λ work. does (work snapshot)) (same e) >>≡ λ flow.
        refl >>≡ λ v. run_branches-clone rest snapshot >>≡ λ vs. refl

    pub eval_par-clone :
        (kind : ParKind) (es : Exprs)
        → eval_par host program calls kind (clone_exprs es) ≡ eval_par host program calls kind es
    unfolding clone_expr eval_par
    eval_par-clone kind no_exprs = refl
    eval_par-clone kind (cons_expr e rest) =
        refl >>≡ λ snapshot. run_branches-clone (cons_expr e rest) snapshot >>≡ λ vs. refl
