-- ===== src/Eval/Expr/Copy.antt =====
-- A lambda runs a copy of its body; the copy evaluates as the body does.
use yabumi.Common.{
  ◌≡◌, refl, ap, ap₂, ◌∙◌, List, Option, some, if◌then◌else◌, Text, text, text_eq, set, [],
}
use yabumi.Ast.Expr.{
  Expr, expr, f_string, ident, list_lit, dict_lit, set_lit, tuple_lit, unary, binary, call,
  method_call, field_access, tuple_index, index, question, pipe, lambda, if_expr, match_expr, par,
  grouping, Exprs, no_exprs, cons_expr, ExprEntries, cons_entry, Segments, no_segments, cons_text,
  cons_hole, Args, no_args, cons_arg, PipeStages, no_stages, cons_stage, PipeCallee, bare,
  with_args, IfExpr, mk_if, ElseBranch, else_block, else_if, MatchArms, no_arms, cons_arm,
  MatchArmBody, body_expr, body_block, Block, block, Stmts, no_stmts, cons_stmt, Stmt, stmt,
  var_decl, name_assign, field_assign, index_assign, discard, return_void, return_value, expr_stmt,
}
use yabumi.Eval.Call.{Calls, empty_slots}
use yabumi.Eval.Call.Builtin.{as_bool, is_flat_builtin, assert_that}
use yabumi.Eval.Call.Dispatch.{flat_builtin}
use yabumi.Eval.Lvalue.{wrap_return}
use yabumi.Eval.Panic.{Outcome, unreachable}
use yabumi.Eval.Program.{Program}
use yabumi.Eval.Steps.{
  eval_method_call, eval_field_access, eval_user_function_call, eval_struct_init,
  eval_enum_variant_init, eval_closure_call, span_of, take_arm, on_call, eval_binary_expr,
  callee_name,
}
use yabumi.Eval.Value.{Value, Entries, MapKey}
use yabumi.Eval.Value.Key.{insert, set_insert}
use yabumi.Diagnostics.Position.{Span}
use yabumi.Eval.Flow.{pure, leave, lift, asks, does, scoped, ◌>>=◌}
use yabumi.Eval.Host.{Host}
use yabumi.Eval.Flow.{◌>>≡◌}
use yabumi.Eval.Clone.{
  clone_expr, clone_exprs, clone_entries, clone_segments, clone_args, clone_stages, clone_callee,
  clone_if_expr, clone_else, clone_arms, clone_body, clone_block, clone_stmts, clone_stmt,
}
use yabumi.Eval.Steps.Copy.{
  eval_field_access-clone, eval_method_call-clone, id_of-clone, span_of-clone, first_arg_id-clone,
  callee_name-clone, lambda_value-clone, invoke_pipe_call-clone, eval_par-clone,
}
use yabumi.Eval.Expr.{
  eval_expr, eval_segments, eval_exprs, eval_entries, eval_keys, eval_args, eval_fields,
  eval_flat_builtin_call, eval_message, eval_stages, eval_pipe_stage, eval_pipe_args, eval_if,
  eval_else, eval_arms, eval_arm_body, eval_block, eval_stmts, eval_stmt, capture_place,
}

module _ (host : Host) (program : Program) (calls : Calls (host.World))
    (same : (e : Expr) → calls.worker (clone_expr e) ≡ calls.worker e) where
  mutual
    unfolding eval_expr clone_expr

    expr_copy :
        (e : Expr) → eval_expr host program calls (clone_expr e) ≡ eval_expr host program calls e
    expr_copy (expr id (f_string segments) at) = segments_copy segments >>≡ λ out. refl
    expr_copy (expr id (list_lit es) at) = exprs_copy es >>≡ λ vs. refl
    expr_copy (expr id (dict_lit es) at) = entries_copy es Entries.no_entries >>≡ λ map. refl
    expr_copy (expr id (set_lit es) at) = keys_copy es [] >>≡ λ keys. refl
    expr_copy (expr id (tuple_lit es) at) = exprs_copy es >>≡ λ vs. refl
    expr_copy (expr id (unary op e) at) = expr_copy e >>≡ λ v. refl
    expr_copy (expr id (binary op l r) at) =
        ap₂ (eval_binary_expr (host.floats) op at) (expr_copy l) (expr_copy r)
    expr_copy (expr id (call callee targs args) at) =
        let flat : eval_flat_builtin_call host program calls (callee_name (clone_expr callee))
              (clone_args args) at
            ≡ eval_flat_builtin_call host program calls (callee_name callee) args at =
          rw (callee_name-clone callee) (flat_copy (callee_name callee) args at) in
        λ i.
          on_call (program.resolutions.call_kind id)
            (eval_user_function_call host program calls (callee_name-clone callee i)
              (args_copy args i))
            (eval_struct_init host program calls (callee_name-clone callee i)
              (λ names. fields_copy names args (empty_slots names) i))
            (eval_enum_variant_init host program calls (callee_name-clone callee i)
              (args_copy args i))
            (eval_closure_call host program calls (expr_copy callee i) (args_copy args i)) (flat i)
    expr_copy (expr id (method_call receiver method targs args) at) =
        eval_method_call-clone host program calls receiver method id _ at _ _ _ ∙ λ i.
        eval_method_call host program calls receiver method id (first_arg_id-clone args i) at
          (place_copy receiver i) (expr_copy receiver i) (args_copy args i)
    expr_copy (expr id (field_access target field) at) =
        eval_field_access-clone host program calls target field _
        ∙ ap (eval_field_access host program calls target field) (expr_copy target)
    expr_copy (expr id (tuple_index target j) at) = expr_copy target >>≡ λ v. refl
    expr_copy (expr id (index target key) at) =
        expr_copy target >>≡ λ v. expr_copy key >>≡ λ k. refl
    expr_copy (expr id (question target) at) = expr_copy target >>≡ λ v. refl
    expr_copy (expr id (pipe source stages) at) = expr_copy source >>≡ λ v. stages_copy stages v
    expr_copy (expr id (lambda params body) at) = ap asks (lambda_value-clone params body)
    expr_copy (expr id (if_expr e) at) = if_copy e
    expr_copy (expr id (match_expr scrutinee arms) at) =
        expr_copy scrutinee >>≡ λ v. arms_copy arms v
    expr_copy (expr id (par kind es) at) = eval_par-clone host program calls same kind es
    expr_copy (expr id (grouping inner) at) = expr_copy inner
    expr_copy (expr id _ at) = refl

    segments_copy :
        (ss : Segments)
        → eval_segments host program calls (clone_segments ss) ≡ eval_segments host program calls ss
    segments_copy no_segments = refl
    segments_copy (cons_text t rest) = segments_copy rest >>≡ λ out. refl
    segments_copy (cons_hole e rest) =
        expr_copy e >>≡ λ v. refl >>≡ λ t. segments_copy rest >>≡ λ out. refl

    exprs_copy :
        (es : Exprs)
        → eval_exprs host program calls (clone_exprs es) ≡ eval_exprs host program calls es
    exprs_copy no_exprs = refl
    exprs_copy (cons_expr e rest) = expr_copy e >>≡ λ v. exprs_copy rest >>≡ λ vs. refl

    entries_copy :
        (es : ExprEntries) (map : Entries)
        → eval_entries host program calls (clone_entries es) map
          ≡ eval_entries host program calls es map
    entries_copy ExprEntries.no_entries map = refl
    entries_copy (cons_entry k v rest) map = expr_copy k >>≡ λ kv.
        expr_copy v >>≡ λ vv. refl >>≡ λ key. entries_copy rest (insert key vv map)

    keys_copy :
        (es : Exprs) (keys : List MapKey)
        → eval_keys host program calls (clone_exprs es) keys ≡ eval_keys host program calls es keys
    keys_copy no_exprs keys = refl
    keys_copy (cons_expr e rest) keys =
        expr_copy e >>≡ λ v. refl >>≡ λ key. keys_copy rest (set_insert key keys)

    args_copy :
        (args : Args)
        → eval_args host program calls (clone_args args) ≡ eval_args host program calls args
    args_copy no_args = refl
    args_copy (cons_arg name e placeholder rest) =
        expr_copy e >>≡ λ v. args_copy rest >>≡ λ vs. refl

    fields_copy :
        (names : List Text) (args : Args) (slots : List (Option Value))
        → eval_fields host program calls names (clone_args args) slots
          ≡ eval_fields host program calls names args slots
    fields_copy names no_args slots = refl
    fields_copy names (cons_arg name e placeholder rest) slots =
        refl >>≡ λ i. expr_copy e >>≡ λ v. fields_copy names rest (set slots i (some v))

    flat_copy :
        (callee : Outcome Text) (args : Args) (at : Span)
        → eval_flat_builtin_call host program calls callee (clone_args args) at
          ≡ eval_flat_builtin_call host program calls callee args at
    flat_copy callee no_args at = refl
    flat_copy callee (cons_arg arg e placeholder rest) at =
        let message : eval_message host program calls (clone_args rest) (span_of (clone_expr e))
            ≡ eval_message host program calls rest (span_of e) =
          rw (span_of-clone e) (message_copy rest (span_of e)) in
        refl >>≡ λ name. λ i.
          if text_eq name (text "set")
          then pure (Value.set [])
          else if text_eq name (text "assert")
          then (expr_copy e i >>= λ v.
              lift (as_bool v) >>= λ b. message i >>= λ detail. lift (assert_that b detail at))
          else if is_flat_builtin name
          then (expr_copy e i >>= λ v. does (flat_builtin host name v at))
          else lift unreachable

    message_copy :
        (args : Args) (condition : Span)
        → eval_message host program calls (clone_args args) condition
          ≡ eval_message host program calls args condition
    message_copy no_args condition = refl
    message_copy (cons_arg name e placeholder rest) condition = expr_copy e >>≡ λ v. refl

    stages_copy :
        (stages : PipeStages) (input : Value)
        → eval_stages host program calls (clone_stages stages) input
          ≡ eval_stages host program calls stages input
    stages_copy no_stages input = refl
    stages_copy (cons_stage callee unwraps at rest) input =
        stage_copy callee input >>≡ λ staged. refl >>≡ λ v. stages_copy rest v

    stage_copy :
        (callee : PipeCallee) (input : Value)
        → eval_pipe_stage host program calls (clone_callee callee) input
          ≡ eval_pipe_stage host program calls callee input
    stage_copy (bare callee) input = invoke_pipe_call-clone host program calls callee _
    stage_copy (with_args callee args) input =
        pipe_args_copy args input >>≡ λ vs. invoke_pipe_call-clone host program calls callee vs

    pipe_args_copy :
        (args : Args) (input : Value)
        → eval_pipe_args host program calls (clone_args args) input
          ≡ eval_pipe_args host program calls args input
    pipe_args_copy no_args input = refl
    pipe_args_copy (cons_arg name e placeholder rest) input =
        ap (λ m. if placeholder then pure input else m) (expr_copy e) >>≡ λ v.
        pipe_args_copy rest input >>≡ λ vs. refl

    if_copy :
        (e : IfExpr) → eval_if host program calls (clone_if_expr e) ≡ eval_if host program calls e
    if_copy (mk_if c then_branch else_branch at) = expr_copy c >>≡ λ v. refl >>≡ λ b.
        ap₂ (λ m n. if b then scoped m else n) (block_copy then_branch) (else_copy else_branch)

    else_copy :
        (b : ElseBranch)
        → eval_else host program calls (clone_else b) ≡ eval_else host program calls b
    else_copy (else_block b) = ap scoped (block_copy b)
    else_copy (else_if inner) = if_copy inner

    arms_copy :
        (arms : MatchArms) (v : Value)
        → eval_arms host program calls (clone_arms arms) v ≡ eval_arms host program calls arms v
    arms_copy no_arms v = refl
    arms_copy (cons_arm p body at rest) v =
        refl >>≡ λ found. ap₂ (take_arm found) (arm_copy body) (arms_copy rest v)

    arm_copy :
        (body : MatchArmBody)
        → eval_arm_body host program calls (clone_body body) ≡ eval_arm_body host program calls body
    arm_copy (body_expr e) = expr_copy e
    arm_copy (body_block b) = block_copy b

    block_copy :
        (b : Block)
        → eval_block host program calls (clone_block b) ≡ eval_block host program calls b
    block_copy (block ss at) = stmts_copy ss Value.void

    stmts_copy :
        (ss : Stmts) (last : Value)
        → eval_stmts host program calls (clone_stmts ss) last
          ≡ eval_stmts host program calls ss last
    stmts_copy no_stmts last = refl
    stmts_copy (cons_stmt s rest) last = stmt_copy s >>≡ λ v. stmts_copy rest v

    stmt_copy :
        (s : Stmt) → eval_stmt host program calls (clone_stmt s) ≡ eval_stmt host program calls s
    stmt_copy (stmt (var_decl name ty e) at) = expr_copy e >>≡ λ v. refl
    stmt_copy (stmt (name_assign name ty e) at) = expr_copy e >>≡ λ v. refl
    stmt_copy (stmt (field_assign target field e) at) =
        expr_copy e >>≡ λ v. place_copy target >>≡ λ path. refl
    stmt_copy (stmt (index_assign target key e) at) =
        expr_copy e >>≡ λ v. expr_copy key >>≡ λ k. place_copy target >>≡ λ path. refl
    stmt_copy (stmt (discard e) at) = expr_copy e >>≡ λ v. refl
    stmt_copy (stmt return_void at) = refl
    stmt_copy (stmt (return_value e) at) = expr_copy e >>≡ λ v.
        ap (λ n. leave (wrap_return (program.resolutions.implicit_wrap n) v)) (id_of-clone e)
    stmt_copy (stmt (expr_stmt e) at) = expr_copy e

    place_copy :
        (e : Expr)
        → capture_place host program calls (clone_expr e) ≡ capture_place host program calls e
    place_copy (expr id (ident name) at) = refl
    place_copy (expr id (grouping inner) at) = place_copy inner
    place_copy (expr id (field_access target field) at) = place_copy target >>≡ λ path. refl
    place_copy (expr id (tuple_index target i) at) = place_copy target >>≡ λ path. refl
    place_copy (expr id (index target key) at) =
        expr_copy key >>≡ λ k. place_copy target >>≡ λ path. refl
    place_copy (expr id _ at) = refl

  -- `same` says it of the worker threads.
  pub eval_expr-clone_expr :
      (e : Expr) → eval_expr host program calls (clone_expr e) ≡ eval_expr host program calls e
  eval_expr-clone_expr = expr_copy
