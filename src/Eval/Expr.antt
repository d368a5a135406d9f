-- ===== src/Eval/Expr.antt =====
-- src/eval/expr.rs, src/eval/stmt.rs, src/eval/lvalue.rs and the calls of src/eval/call.rs: the
-- evaluation of the syntax tree, by recursion on it. The calls of functions are the parameter `calls`,
-- which Eval.Run fills.
pub mod Keeps
pub mod Contract
pub mod Capture
pub mod Copy
use yabumi.Common.{
  ◌++◌, Bool, true, false, ◌&&◌, List, Option, some, none, if◌then◌else◌, Text, text, text_eq, set,
  [],
}
use yabumi.Ast.Expr.{
  Expr, expr, ExprKind, int_lit, float_lit, bool_lit, string_lit, f_string, ident, list_lit,
  dict_lit, set_lit, tuple_lit, unary, binary, call, method_call, field_access, tuple_index, index,
  question, pipe, lambda, if_expr, match_expr, par, grouping, Exprs, no_exprs, cons_expr,
  ExprEntries, cons_entry, Segments, no_segments, cons_text, cons_hole, Args, no_args, cons_arg,
  PipeStages, no_stages, cons_stage, PipeCallee, bare, with_args, IfExpr, mk_if, ElseBranch,
  else_block, else_if, MatchArms, no_arms, cons_arm, MatchArmBody, body_expr, body_block, Block,
  block, Stmts, no_stmts, cons_stmt, Stmt, stmt, var_decl, name_assign, field_assign, index_assign,
  discard, return_void, return_value, expr_stmt,
}
use yabumi.Eval.Call.{
  Calls, field_names_of, empty_slots, filled, variant_of, declared, call_closure, call_named,
}
use yabumi.Eval.Call.Builtin.{
  on_namespace, as_bool, as_str, as_key, index_read, tuple_read, field_read, namespace_const,
  namespace_of, eval_ident, question as question_value, is_flat_builtin, assert_that,
}
use yabumi.Eval.Call.Dispatch.{fstring_text, flat_builtin, dispatch_readonly, invoke_pipe_call}
use yabumi.Eval.Env.{bind}
use yabumi.Eval.Lvalue.{PlacePath, PlaceStep, assign_place, assign_name, wrap_return}
use yabumi.Eval.Match.{try_match_pattern}
use yabumi.Eval.Ops.{eval_unary}
use yabumi.Eval.Panic.{Outcome, unreachable}
use yabumi.Eval.Program.{Program}
use yabumi.Eval.Steps.{
  eval_method_call, eval_field_access, eval_user_function_call, eval_struct_init,
  eval_enum_variant_init, eval_closure_call, id_of, span_of, first_arg_id, append_step, slot_of,
  method_on_place, lambda_value, take_arm, eval_par, as_closure, new_enum, on_call,
  eval_binary_expr, is_local_place, callee_name,
}
use yabumi.Eval.Value.{Value, Values, nil, cons, Entries, MapKey}
use yabumi.Eval.Value.Key.{insert, set_insert}
use yabumi.Diagnostics.Position.{Span}
use yabumi.Eval.Flow.{Eval, pure, leave, lift, asks, does, update, scoped, ◌>>=◌}
use yabumi.Common.TextMap.{get}
use yabumi.Eval.Host.{Host}

module _ (host : Host) (program : Program) (calls : Calls (host.World)) where
  unfoldable mutual
    unfolding take_arm on_namespace on_call eval_method_call eval_field_access
        eval_user_function_call eval_struct_init eval_enum_variant_init eval_closure_call
        eval_binary_expr eval_par method_on_place question_value invoke_pipe_call dispatch_readonly

    pub eval_expr : Expr → Eval (host.World) Value
    eval_expr (expr id (int_lit n) at) = pure (Value.int n)
    eval_expr (expr id (float_lit x) at) = pure (Value.float x)
    eval_expr (expr id (bool_lit b) at) = pure (Value.bool b)
    eval_expr (expr id (string_lit s) at) = pure (Value.str s)
    eval_expr (expr id (f_string segments) at) =
        eval_segments segments >>= λ out. pure (Value.str out)
    eval_expr (expr id (ident name) at) = asks (eval_ident program name)
    eval_expr (expr id (list_lit es) at) = eval_exprs es >>= λ vs. pure (Value.list vs)
    eval_expr (expr id (dict_lit es) at) =
        eval_entries es Entries.no_entries >>= λ map. pure (Value.dict map)
    eval_expr (expr id (set_lit es) at) = eval_keys es [] >>= λ keys. pure (Value.set keys)
    eval_expr (expr id (tuple_lit es) at) = eval_exprs es >>= λ vs. pure (Value.tuple vs)
    eval_expr (expr id (unary op e) at) =
        eval_expr e >>= λ v. lift (eval_unary (host.floats) op v at)
    eval_expr (expr id (binary op l r) at) =
        eval_binary_expr (host.floats) op at (eval_expr l) (eval_expr r)
    eval_expr (expr id (call callee targs args) at) =
        on_call (program.resolutions.call_kind id)
          (eval_user_function_call host program calls (callee_name callee) (eval_args args))
          (eval_struct_init host program calls (callee_name callee)
            (λ names. eval_fields names args (empty_slots names)))
          (eval_enum_variant_init host program calls (callee_name callee) (eval_args args))
          (eval_closure_call host program calls (eval_expr callee) (eval_args args))
          (eval_flat_builtin_call (callee_name callee) args at)
    eval_expr (expr id (method_call receiver method targs args) at) =
        eval_method_call host program calls receiver method id (first_arg_id args) at
          (capture_place receiver) (eval_expr receiver) (eval_args args)
    eval_expr (expr id (field_access target field) at) =
        eval_field_access host program calls target field (eval_expr target)
    eval_expr (expr id (tuple_index target i) at) = eval_expr target >>= λ v. lift (tuple_read v i)
    eval_expr (expr id (index target key) at) =
        eval_expr target >>= λ v. eval_expr key >>= λ k. lift (index_read v k at)
    eval_expr (expr id (question target) at) = eval_expr target >>= λ v. question_value v
    eval_expr (expr id (pipe source stages) at) = eval_expr source >>= λ v. eval_stages stages v
    eval_expr (expr id (lambda params body) at) = asks (lambda_value params body)
    eval_expr (expr id (if_expr e) at) = eval_if e
    eval_expr (expr id (match_expr scrutinee arms) at) =
        eval_expr scrutinee >>= λ v. eval_arms arms v
    eval_expr (expr id (par kind es) at) = eval_par host program calls kind es
    eval_expr (expr id (grouping inner) at) = eval_expr inner

    pub eval_segments : Segments → Eval (host.World) Text
    eval_segments no_segments = pure []
    eval_segments (cons_text t rest) = eval_segments rest >>= λ out. pure (t ++ out)
    eval_segments (cons_hole e rest) = eval_expr e >>= λ v.
        lift (fstring_text host v) >>= λ t. eval_segments rest >>= λ out. pure (t ++ out)

    pub eval_exprs : Exprs → Eval (host.World) Values
    eval_exprs no_exprs = pure nil
    eval_exprs (cons_expr e rest) = eval_expr e >>= λ v. eval_exprs rest >>= λ vs. pure (cons v vs)

    pub eval_entries : ExprEntries → Entries → Eval (host.World) Entries
    eval_entries ExprEntries.no_entries map = pure map
    eval_entries (cons_entry k v rest) map = eval_expr k >>= λ kv.
        eval_expr v >>= λ vv. lift (as_key kv) >>= λ key. eval_entries rest (insert key vv map)

    pub eval_keys : Exprs → List MapKey → Eval (host.World) (List MapKey)
    eval_keys no_exprs keys = pure keys
    eval_keys (cons_expr e rest) keys =
        eval_expr e >>= λ v. lift (as_key v) >>= λ key. eval_keys rest (set_insert key keys)

    pub eval_args : Args → Eval (host.World) Values
    eval_args no_args = pure nil
    eval_args (cons_arg name e placeholder rest) =
        eval_expr e >>= λ v. eval_args rest >>= λ vs. pure (cons v vs)

    -- The named arguments of a struct's construction, each into its slot.
    pub eval_fields :
        List Text → Args → List (Option Value) → Eval (host.World) (List (Option Value))
    eval_fields names no_args slots = pure slots
    eval_fields names (cons_arg name e placeholder rest) slots = lift (slot_of names name) >>= λ i.
        eval_expr e >>= λ v. eval_fields names rest (set slots i (some v))

    -- The flat builtins: `set` takes no argument, `assert` a condition and perhaps a message.
    pub eval_flat_builtin_call : Outcome Text → Args → Span → Eval (host.World) Value
    eval_flat_builtin_call callee no_args at = lift callee >>= λ name.
        if text_eq name (text "set") then pure (Value.set []) else lift unreachable
    eval_flat_builtin_call callee (cons_arg arg e placeholder rest) at = lift callee >>= λ name.
        if text_eq name (text "set")
        then pure (Value.set [])
        else if text_eq name (text "assert")
        then (eval_expr e >>= λ v. lift (as_bool v) >>= λ b.
            eval_message rest (span_of e) >>= λ detail. lift (assert_that b detail at))
        else if is_flat_builtin name
        then (eval_expr e >>= λ v. does (flat_builtin host name v at))
        else lift unreachable

    pub eval_message : Args → Span → Eval (host.World) Text
    eval_message no_args condition = pure (host.source_text condition)
    eval_message (cons_arg name e placeholder rest) condition = eval_expr e >>= λ v. lift (as_str v)

    pub eval_stages : PipeStages → Value → Eval (host.World) Value
    eval_stages no_stages input = pure input
    eval_stages (cons_stage callee unwraps at rest) input =
        eval_pipe_stage callee input >>= λ staged.
        (if unwraps then question_value staged else pure staged) >>= λ v. eval_stages rest v

    pub eval_pipe_stage : PipeCallee → Value → Eval (host.World) Value
    eval_pipe_stage (bare callee) input =
        invoke_pipe_call host program calls callee (cons input nil)
    eval_pipe_stage (with_args callee args) input =
        eval_pipe_args args input >>= λ vs. invoke_pipe_call host program calls callee vs

    -- A placeholder stands for the input.
    pub eval_pipe_args : Args → Value → Eval (host.World) Values
    eval_pipe_args no_args input = pure nil
    eval_pipe_args (cons_arg name e placeholder rest) input =
        (if placeholder then pure input else eval_expr e) >>= λ v.
        eval_pipe_args rest input >>= λ vs. pure (cons v vs)

    pub eval_if : IfExpr → Eval (host.World) Value
    eval_if (mk_if c then_branch else_branch at) = eval_expr c >>= λ v. lift (as_bool v) >>= λ b.
        if b then scoped (eval_block then_branch) else eval_else else_branch

    pub eval_else : ElseBranch → Eval (host.World) Value
    eval_else (else_block b) = scoped (eval_block b)
    eval_else (else_if inner) = eval_if inner

    pub eval_arms : MatchArms → Value → Eval (host.World) Value
    eval_arms no_arms v = lift unreachable
    eval_arms (cons_arm p body at rest) v =
        lift (try_match_pattern (host.floats) program p v) >>= λ found.
        take_arm found (eval_arm_body body) (eval_arms rest v)

    pub eval_arm_body : MatchArmBody → Eval (host.World) Value
    eval_arm_body (body_expr e) = eval_expr e
    eval_arm_body (body_block b) = eval_block b

    pub eval_block : Block → Eval (host.World) Value
    eval_block (block ss at) = eval_stmts ss Value.void

    -- The loop of `eval_block`, with the value of the last statement.
    pub eval_stmts : Stmts → Value → Eval (host.World) Value
    eval_stmts no_stmts last = pure last
    eval_stmts (cons_stmt s rest) last = eval_stmt s >>= λ v. eval_stmts rest v

    pub eval_stmt : Stmt → Eval (host.World) Value
    eval_stmt (stmt (var_decl name ty e) at) =
        eval_expr e >>= λ v. update (bind name v) >>= λ _. pure Value.void
    eval_stmt (stmt (name_assign name ty e) at) =
        eval_expr e >>= λ v. update (assign_name name v) >>= λ _. pure Value.void
    eval_stmt (stmt (field_assign target field e) at) = eval_expr e >>= λ v.
        capture_place target >>= λ path.
        update (λ env. assign_place (append_step path (PlaceStep.field field)) v env program false)
        >>= λ _. pure Value.void
    eval_stmt (stmt (index_assign target key e) at) = eval_expr e >>= λ v. eval_expr key >>= λ k.
        capture_place target >>= λ path.
        update (λ env. assign_place (append_step path (PlaceStep.index k at)) v env program true)
        >>= λ _. pure Value.void
    eval_stmt (stmt (discard e) at) = eval_expr e >>= λ _. pure Value.void
    eval_stmt (stmt return_void at) = leave Value.void
    eval_stmt (stmt (return_value e) at) =
        eval_expr e >>= λ v. leave (wrap_return (program.resolutions.implicit_wrap (id_of e)) v)
    eval_stmt (stmt (expr_stmt e) at) = eval_expr e

    pub capture_place : Expr → Eval (host.World) PlacePath
    capture_place (expr id (ident name) at) = pure (record { root = name; steps = [] })
    capture_place (expr id (grouping inner) at) = capture_place inner
    capture_place (expr id (field_access target field) at) =
        capture_place target >>= λ path. pure (append_step path (PlaceStep.field field))
    capture_place (expr id (tuple_index target i) at) =
        capture_place target >>= λ path. pure (append_step path (PlaceStep.tuple_index i at))
    capture_place (expr id (index target key) at) = eval_expr key >>= λ k.
        capture_place target >>= λ path. pure (append_step path (PlaceStep.index k at))
    capture_place (expr id kind at) = lift unreachable
