-- ===== src/Eval/Steps/Keeps.antt =====
-- The steps between the evaluations of subexpressions keep the environment, where what they go on with
-- does.
use yabumi.Common.{List, Option, some, none, Text}
use yabumi.Types.Resolutions.{CallKind, function_call, struct_init, enum_variant_init, closure_call}
use yabumi.Ast.Expr.{expr, field_access, ident, Expr, BinaryOp, ParKind, Exprs, no_exprs, cons_expr}
use yabumi.Eval.Call.{Calls}
use yabumi.Eval.Call.Builtin.{namespace_of, question, on_namespace}
use yabumi.Eval.Call.Dispatch.{invoke_pipe_call}
use yabumi.Eval.Flow.{Flow, Eval}
use yabumi.Eval.Flow.Keeps.{Keeps}
use yabumi.Eval.Flow.Keeps.Rules.{
  Keeps-pure, Keeps-leave, Keeps-lift, Keeps-asks, Keeps-does, Keeps-if, Keeps-scoped, Keeps-update,
  Keeps-bind,
}
use yabumi.Eval.Flow.Keeps.Writes.{
  bind-Grows, assign_name-Grows, assign_place-Grows, bind_all-Grows,
}
use yabumi.Eval.Host.{Host}
use yabumi.Eval.Match.{Bindings}
use yabumi.Eval.Steps.{
  eval_method_call, eval_field_access, id_of, Outcome, eval_user_function_call, eval_struct_init,
  eval_enum_variant_init, eval_closure_call, Captured, CallKind, CallTarget, NamespaceId, NodeId,
  Environment, Span, PlacePath, Mutation, Program, FloatOps, eval_binary_expr, take_arm, as_closure,
  on_call, branch_value, run_branches, eval_par, finish_method, method_on_place,
}
use yabumi.Eval.Value.{Value, Values}

pub ruleset step_rules = (
  Keeps-pure, Keeps-leave, Keeps-lift, Keeps-asks, Keeps-does, Keeps-if, Keeps-scoped, Keeps-update,
  Keeps-bind, bind-Grows, assign_name-Grows, assign_place-Grows, bind_all-Grows,
)

module _ {W : Type 0} where
  pub question-Keeps : (v : Value) → Keeps {W = W} (question v)
  unfolding question
  question-Keeps (Value.enum type_name i variant fields) = search step_rules
  question-Keeps _ = search step_rules

  pub take_arm-Keeps :
      (found : Option Bindings) (body rest : Eval W Value)
      → Keeps body
      → Keeps rest
      → Keeps (take_arm found body rest)
  unfolding take_arm
  take_arm-Keeps none body rest kb kr = kr
  take_arm-Keeps (some bindings) body rest kb kr = search step_rules

  pub branch_value-Keeps : (flow : Flow Value) → Keeps {W = W} (branch_value flow)
  unfolding branch_value
  branch_value-Keeps (Flow.value v) = search step_rules
  branch_value-Keeps (Flow.return v) = search step_rules

  pub eval_binary_expr-Keeps :
      (floats : FloatOps) (op : BinaryOp) (at : Span) (left right : Eval W Value)
      → Keeps left
      → Keeps right
      → Keeps (eval_binary_expr floats op at left right)
  unfolding eval_binary_expr
  eval_binary_expr-Keeps floats BinaryOp.and at left right kl kr = search step_rules
  eval_binary_expr-Keeps floats BinaryOp.or at left right kl kr = search step_rules
  eval_binary_expr-Keeps floats _ at left right kl kr = search step_rules

  pub on_namespace-Keeps :
      (ns : Option NamespaceId) (call : NamespaceId → Eval W Value) (other : Eval W Value)
      → ((n : NamespaceId) → Keeps (call n))
      → Keeps other
      → Keeps (on_namespace ns call other)
  unfolding on_namespace
  on_namespace-Keeps none call other kc ko = ko
  on_namespace-Keeps (some n) call other kc ko = kc n

  pub as_closure-Keeps :
      (v : Value) (next : CallTarget → Captured → Eval W Value)
      → ((target : CallTarget) (held : Captured) → Keeps (next target held))
      → Keeps (as_closure v next)
  unfolding as_closure
  as_closure-Keeps (Value.closure target held) next k = k target held
  as_closure-Keeps _ next k = search step_rules

  pub on_call-Keeps :
      (kind : Option CallKind) (fn con var closed flat : Eval W Value)
      → Keeps fn
      → Keeps con
      → Keeps var
      → Keeps closed
      → Keeps flat
      → Keeps (on_call kind fn con var closed flat)
  unfolding on_call
  on_call-Keeps none fn con var closed flat a b c d e = e
  on_call-Keeps (some function_call) fn con var closed flat a b c d e = a
  on_call-Keeps (some struct_init) fn con var closed flat a b c d e = b
  on_call-Keeps (some enum_variant_init) fn con var closed flat a b c d e = c
  on_call-Keeps (some closure_call) fn con var closed flat a b c d e = d

module _ (host : Host) (program : Program) (calls : Calls (host.World)) where
  pub run_branches-Keeps :
      (es : Exprs) (snapshot : Environment) → Keeps (run_branches host program calls es snapshot)
  unfolding run_branches
  run_branches-Keeps no_exprs snapshot = search step_rules
  run_branches-Keeps (cons_expr e rest) snapshot = Keeps-bind _ _ (Keeps-does _) (λ flow.
      Keeps-bind _ _ (branch_value-Keeps flow)
        (λ v. Keeps-bind _ _ (run_branches-Keeps rest snapshot) (λ vs. Keeps-pure _)))

  pub eval_par-Keeps : (kind : ParKind) (es : Exprs) → Keeps (eval_par host program calls kind es)
  unfolding eval_par
  eval_par-Keeps kind no_exprs = search step_rules
  eval_par-Keeps kind (cons_expr e rest) = search (step_rules, run_branches-Keeps)

  finish_method-Keeps :
      (mutation : Option Mutation) (path : PlacePath) (snapshot : Value) (method : Text)
      (receiver : NodeId) (at : Span) (args : Eval (host.World) Values)
      → Keeps args
      → Keeps (finish_method host program calls mutation path snapshot method receiver at args)
  unfolding finish_method
  finish_method-Keeps none path snapshot method receiver at args k = search step_rules
  finish_method-Keeps (some m) path snapshot method receiver at args k = search step_rules

  pub method_on_place-Keeps :
      (path : PlacePath) (method : Text) (receiver : NodeId) (at : Span)
      (args : Eval (host.World) Values)
      → Keeps args
      → Keeps (method_on_place host program calls path method receiver at args)
  unfolding method_on_place
  method_on_place-Keeps path method receiver at args k = search (step_rules, finish_method-Keeps)

  pub invoke_pipe_call-Keeps :
      (callee : Expr) (args : Values) → Keeps (invoke_pipe_call host program calls callee args)
  unfolding invoke_pipe_call
  invoke_pipe_call-Keeps (expr id (field_access (expr target_id (ident n) target_at) field) at)
        args =
      search (step_rules, on_namespace-Keeps)
  invoke_pipe_call-Keeps (expr id (ident name) at) args = search step_rules
  invoke_pipe_call-Keeps _ args = search step_rules

  pub eval_user_function_call-Keeps :
      (callee : Outcome Text) (args : Eval (host.World) Values)
      → Keeps args
      → Keeps (eval_user_function_call host program calls callee args)
  unfolding eval_user_function_call
  eval_user_function_call-Keeps callee args k = search step_rules

  pub eval_enum_variant_init-Keeps :
      (callee : Outcome Text) (args : Eval (host.World) Values)
      → Keeps args
      → Keeps (eval_enum_variant_init host program calls callee args)
  unfolding eval_enum_variant_init
  eval_enum_variant_init-Keeps callee args k = search step_rules

  pub eval_struct_init-Keeps :
      (callee : Outcome Text) (fields : List Text → Eval (host.World) (List (Option Value)))
      → ((names : List Text) → Keeps (fields names))
      → Keeps (eval_struct_init host program calls callee fields)
  unfolding eval_struct_init
  eval_struct_init-Keeps callee fields k = search step_rules

  pub eval_closure_call-Keeps :
      (callee : Eval (host.World) Value) (args : Eval (host.World) Values)
      → Keeps callee
      → Keeps args
      → Keeps (eval_closure_call host program calls callee args)
  unfolding eval_closure_call
  eval_closure_call-Keeps callee args kc k = search (step_rules, as_closure-Keeps)

  pub eval_method_call-Keeps :
      (receiver : Expr) (method : Text) (id : NodeId) (first : Option NodeId) (at : Span)
      (place : Eval (host.World) PlacePath) (value : Eval (host.World) Value)
      (args : Eval (host.World) Values)
      → Keeps place
      → Keeps value
      → Keeps args
      → Keeps (eval_method_call host program calls receiver method id first at place value args)
  unfolding eval_method_call
  eval_method_call-Keeps receiver method id first at place value args kp kv ka =
      on_namespace-Keeps (namespace_of program receiver) _ _
        (λ ns. Keeps-bind _ _ ka (λ vs. Keeps-does _))
        (Keeps-bind _ _ (Keeps-asks _) (λ local.
          Keeps-if local _ _
            (Keeps-bind _ _ kp
              (λ path. method_on_place-Keeps path method (id_of receiver) at args ka))
            (Keeps-bind _ _ kv (λ v. Keeps-bind _ _ ka (λ vs. Keeps-does _)))))

  pub eval_field_access-Keeps :
      (target : Expr) (field : Text) (value : Eval (host.World) Value)
      → Keeps value
      → Keeps (eval_field_access host program calls target field value)
  unfolding eval_field_access
  eval_field_access-Keeps target field value k = search (step_rules, on_namespace-Keeps)
