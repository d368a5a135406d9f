-- ===== src/Eval/Expr/Keeps.antt =====
-- The evaluation of an expression, a statement or a block keeps the environment: it leaves it valid, with
-- the frames and scopes that it had.
use yabumi.Eval.Env.Laws.{IsValid}
use yabumi.Common.{◌≡◌, true, false, List, Option, some, Text, set, []}
use yabumi.Ast.Expr.{
  Expr, expr, int_lit, float_lit, bool_lit, string_lit, f_string, ident, list_lit, dict_lit,
  set_lit, tuple_lit, unary, binary, call, method_call, field_access, tuple_index, index, question,
  pipe, lambda, if_expr, match_expr, par, grouping, Exprs, no_exprs, cons_expr, ExprEntries,
  cons_entry, Segments, no_segments, cons_text, cons_hole, Args, no_args, cons_arg, PipeStages,
  no_stages, cons_stage, PipeCallee, bare, with_args, IfExpr, mk_if, ElseBranch, else_block,
  else_if, MatchArms, no_arms, cons_arm, MatchArmBody, body_expr, body_block, Block, block, Stmts,
  no_stmts, cons_stmt, Stmt, stmt, var_decl, name_assign, field_assign, index_assign, discard,
  return_void, return_value, expr_stmt,
}
use yabumi.Eval.Call.{Calls, empty_slots}
use yabumi.Eval.Panic.{ok, Outcome}
use yabumi.Eval.Program.{Program}
use yabumi.Eval.Steps.{span_of, callee_name}
use yabumi.Eval.Value.{Value, Entries, MapKey}
use yabumi.Eval.Value.Key.{insert, set_insert}
use yabumi.Diagnostics.Position.{Span}
use yabumi.Eval.Flow.{Flow, State}
use yabumi.Eval.Host.{Host}
use yabumi.Eval.Flow.Keeps.{GrownFrames, Keeps}
use yabumi.Eval.Flow.Keeps.Writes.{assign_place-Grows, bind-Grows, assign_name-Grows}
use yabumi.Eval.Flow.Keeps.Rules.{
  Keeps-update, Keeps-does, ◌⟫◌, Keeps-pure, Keeps-leave, Keeps-lift, Keeps-asks, Keeps-if,
  Keeps-scoped, Keeps-bind,
}
use yabumi.Eval.Steps.Keeps.{
  eval_method_call-Keeps, eval_field_access-Keeps, eval_user_function_call-Keeps,
  eval_struct_init-Keeps, eval_enum_variant_init-Keeps, eval_closure_call-Keeps, step_rules,
  question-Keeps, take_arm-Keeps, eval_binary_expr-Keeps, on_call-Keeps, eval_par-Keeps,
  invoke_pipe_call-Keeps,
}
use yabumi.Eval.Expr.{
  eval_expr, eval_segments, eval_exprs, eval_entries, eval_keys, eval_args, eval_fields,
  eval_flat_builtin_call, eval_message, eval_stages, eval_pipe_stage, eval_pipe_args, eval_if,
  eval_else, eval_arms, eval_arm_body, eval_block, eval_stmts, eval_stmt, capture_place,
}

module _ (host : Host) (program : Program) (calls : Calls (host.World)) where
  mutual
    unfolding eval_expr

    expr-Keeps : (e : Expr) → Keeps (eval_expr host program calls e)
    expr-Keeps (expr id (int_lit n) at) = Keeps-pure _
    expr-Keeps (expr id (float_lit x) at) = Keeps-pure _
    expr-Keeps (expr id (bool_lit b) at) = Keeps-pure _
    expr-Keeps (expr id (string_lit s) at) = Keeps-pure _
    expr-Keeps (expr id (f_string segments) at) = search (step_rules, segments-Keeps segments)
    expr-Keeps (expr id (ident name) at) = Keeps-asks _
    expr-Keeps (expr id (list_lit es) at) = search (step_rules, exprs-Keeps es)
    expr-Keeps (expr id (dict_lit es) at) = search (step_rules, entries-Keeps es Entries.no_entries)
    expr-Keeps (expr id (set_lit es) at) = search (step_rules, keys-Keeps es [])
    expr-Keeps (expr id (tuple_lit es) at) = search (step_rules, exprs-Keeps es)
    expr-Keeps (expr id (unary op e) at) = search (step_rules, expr-Keeps e)
    expr-Keeps (expr id (binary op l r) at) =
        eval_binary_expr-Keeps _ op at _ _ (expr-Keeps l) (expr-Keeps r)
    expr-Keeps (expr id (call callee targs args) at) =
        on_call-Keeps (program.resolutions.call_kind id) _ _ _ _ _
          (eval_user_function_call-Keeps host program calls _ _ (args-Keeps args))
          (eval_struct_init-Keeps host program calls _ _
            (λ names. fields-Keeps names args (empty_slots names)))
          (eval_enum_variant_init-Keeps host program calls _ _ (args-Keeps args))
          (eval_closure_call-Keeps host program calls _ _ (expr-Keeps callee) (args-Keeps args))
          (flat-Keeps (callee_name callee) args at)
    expr-Keeps (expr id (method_call receiver method targs args) at) =
        eval_method_call-Keeps host program calls receiver method id _ at _ _ _
          (place-Keeps receiver) (expr-Keeps receiver) (args-Keeps args)
    expr-Keeps (expr id (field_access target field) at) =
        eval_field_access-Keeps host program calls target field _ (expr-Keeps target)
    expr-Keeps (expr id (tuple_index target i) at) = search (step_rules, expr-Keeps target)
    expr-Keeps (expr id (index target key) at) =
        search (step_rules, expr-Keeps target, expr-Keeps key)
    expr-Keeps (expr id (question target) at) =
        search (step_rules, expr-Keeps target, question-Keeps)
    expr-Keeps (expr id (pipe source stages) at) =
        Keeps-bind _ _ (expr-Keeps source) (λ v. stages-Keeps stages v)
    expr-Keeps (expr id (lambda params body) at) = Keeps-asks _
    expr-Keeps (expr id (if_expr e) at) = if-Keeps e
    expr-Keeps (expr id (match_expr scrutinee arms) at) =
        Keeps-bind _ _ (expr-Keeps scrutinee) (λ v. arms-Keeps arms v)
    expr-Keeps (expr id (par kind es) at) = eval_par-Keeps host program calls kind es
    expr-Keeps (expr id (grouping inner) at) = expr-Keeps inner

    segments-Keeps : (ss : Segments) → Keeps (eval_segments host program calls ss)
    segments-Keeps no_segments = Keeps-pure _
    segments-Keeps (cons_text t rest) = search (step_rules, segments-Keeps rest)
    segments-Keeps (cons_hole e rest) =
        expr-Keeps e ⟫ λ v. Keeps-lift _ ⟫ λ t. segments-Keeps rest ⟫ λ out. Keeps-pure _

    exprs-Keeps : (es : Exprs) → Keeps (eval_exprs host program calls es)
    exprs-Keeps no_exprs = Keeps-pure _
    exprs-Keeps (cons_expr e rest) = search (step_rules, expr-Keeps e, exprs-Keeps rest)

    entries-Keeps :
        (es : ExprEntries) (map : Entries) → Keeps (eval_entries host program calls es map)
    entries-Keeps ExprEntries.no_entries map = Keeps-pure _
    entries-Keeps (cons_entry k v rest) map = Keeps-bind _ _ (expr-Keeps k) (λ kv.
        Keeps-bind _ _ (expr-Keeps v)
          (λ vv. Keeps-bind _ _ (Keeps-lift _) (λ key. entries-Keeps rest (insert key vv map))))

    keys-Keeps : (es : Exprs) (keys : List MapKey) → Keeps (eval_keys host program calls es keys)
    keys-Keeps no_exprs keys = Keeps-pure _
    keys-Keeps (cons_expr e rest) keys =
        Keeps-bind _ _ (expr-Keeps e)
          (λ v. Keeps-bind _ _ (Keeps-lift _) (λ key. keys-Keeps rest (set_insert key keys)))

    args-Keeps : (args : Args) → Keeps (eval_args host program calls args)
    args-Keeps no_args = Keeps-pure _
    args-Keeps (cons_arg name e placeholder rest) =
        search (step_rules, expr-Keeps e, args-Keeps rest)

    fields-Keeps :
        (names : List Text) (args : Args) (slots : List (Option Value))
        → Keeps (eval_fields host program calls names args slots)
    fields-Keeps names no_args slots = Keeps-pure _
    fields-Keeps names (cons_arg name e placeholder rest) slots =
        Keeps-bind _ _ (Keeps-lift _)
          (λ i. Keeps-bind _ _ (expr-Keeps e) (λ v. fields-Keeps names rest (set slots i (some v))))

    flat-Keeps :
        (callee : Outcome Text) (args : Args) (at : Span)
        → Keeps (eval_flat_builtin_call host program calls callee args at)
    flat-Keeps callee no_args at = search step_rules
    flat-Keeps callee (cons_arg arg e placeholder rest) at = Keeps-lift _ ⟫ λ name.
        Keeps-if _ _ _ (Keeps-pure _) (
          Keeps-if _ _ _
            (expr-Keeps e ⟫ λ v.
              Keeps-lift _ ⟫ λ b. message-Keeps rest (span_of e) ⟫ λ detail. Keeps-lift _)
            (Keeps-if _ _ _ (expr-Keeps e ⟫ λ v. Keeps-does _) (Keeps-lift _)))

    message-Keeps :
        (args : Args) (condition : Span) → Keeps (eval_message host program calls args condition)
    message-Keeps no_args condition = Keeps-pure _
    message-Keeps (cons_arg name e placeholder rest) condition = search (step_rules, expr-Keeps e)

    stages-Keeps :
        (stages : PipeStages) (input : Value) → Keeps (eval_stages host program calls stages input)
    stages-Keeps no_stages input = Keeps-pure _
    stages-Keeps (cons_stage callee unwraps at rest) input = stage-Keeps callee input ⟫ λ staged.
        Keeps-if unwraps _ _ (question-Keeps staged) (Keeps-pure staged) ⟫ λ v. stages-Keeps rest v

    stage-Keeps :
        (callee : PipeCallee) (input : Value)
        → Keeps (eval_pipe_stage host program calls callee input)
    stage-Keeps (bare callee) input = invoke_pipe_call-Keeps host program calls callee _
    stage-Keeps (with_args callee args) input =
        Keeps-bind _ _ (pipe_args-Keeps args input)
          (λ vs. invoke_pipe_call-Keeps host program calls callee vs)

    pipe_args-Keeps :
        (args : Args) (input : Value) → Keeps (eval_pipe_args host program calls args input)
    pipe_args-Keeps no_args input = Keeps-pure _
    pipe_args-Keeps (cons_arg name e placeholder rest) input =
        Keeps-if placeholder _ _ (Keeps-pure input) (expr-Keeps e) ⟫ λ v.
        pipe_args-Keeps rest input ⟫ λ vs. Keeps-pure _

    if-Keeps : (e : IfExpr) → Keeps (eval_if host program calls e)
    if-Keeps (mk_if c then_branch else_branch at) = expr-Keeps c ⟫ λ v. Keeps-lift _ ⟫ λ b.
        Keeps-if b _ _ (Keeps-scoped _ (block-Keeps then_branch)) (else-Keeps else_branch)

    else-Keeps : (b : ElseBranch) → Keeps (eval_else host program calls b)
    else-Keeps (else_block b) = Keeps-scoped _ (block-Keeps b)
    else-Keeps (else_if inner) = if-Keeps inner

    arms-Keeps : (arms : MatchArms) (v : Value) → Keeps (eval_arms host program calls arms v)
    arms-Keeps no_arms v = Keeps-lift _
    arms-Keeps (cons_arm p body at rest) v =
        Keeps-lift _ ⟫ λ found. take_arm-Keeps found _ _ (arm-Keeps body) (arms-Keeps rest v)

    arm-Keeps : (body : MatchArmBody) → Keeps (eval_arm_body host program calls body)
    arm-Keeps (body_expr e) = expr-Keeps e
    arm-Keeps (body_block b) = block-Keeps b

    block-Keeps : (b : Block) → Keeps (eval_block host program calls b)
    block-Keeps (block ss at) = stmts-Keeps ss Value.void

    stmts-Keeps : (ss : Stmts) (last : Value) → Keeps (eval_stmts host program calls ss last)
    stmts-Keeps no_stmts last = Keeps-pure _
    stmts-Keeps (cons_stmt s rest) last = Keeps-bind _ _ (stmt-Keeps s) (λ v. stmts-Keeps rest v)

    stmt-Keeps : (s : Stmt) → Keeps (eval_stmt host program calls s)
    stmt-Keeps (stmt (var_decl name ty e) at) =
        expr-Keeps e ⟫ λ v. Keeps-update _ (bind-Grows name v) ⟫ λ _. Keeps-pure _
    stmt-Keeps (stmt (name_assign name ty e) at) =
        expr-Keeps e ⟫ λ v. Keeps-update _ (assign_name-Grows name v) ⟫ λ _. Keeps-pure _
    stmt-Keeps (stmt (field_assign target field e) at) = expr-Keeps e ⟫ λ v.
        place-Keeps target ⟫ λ path.
        Keeps-update _ (assign_place-Grows _ v program false) ⟫ λ _. Keeps-pure _
    stmt-Keeps (stmt (index_assign target key e) at) = expr-Keeps e ⟫ λ v. expr-Keeps key ⟫ λ k.
        place-Keeps target ⟫ λ path.
        Keeps-update _ (assign_place-Grows _ v program true) ⟫ λ _. Keeps-pure _
    stmt-Keeps (stmt (discard e) at) = search (step_rules, expr-Keeps e)
    stmt-Keeps (stmt return_void at) = Keeps-leave _
    stmt-Keeps (stmt (return_value e) at) = search (step_rules, expr-Keeps e)
    stmt-Keeps (stmt (expr_stmt e) at) = expr-Keeps e

    place-Keeps : (e : Expr) → Keeps (capture_place host program calls e)
    place-Keeps (expr id (ident name) at) = Keeps-pure _
    place-Keeps (expr id (grouping inner) at) = place-Keeps inner
    place-Keeps (expr id (field_access target field) at) = search (step_rules, place-Keeps target)
    place-Keeps (expr id (tuple_index target i) at) = search (step_rules, place-Keeps target)
    place-Keeps (expr id (index target key) at) =
        search (step_rules, expr-Keeps key, place-Keeps target)
    place-Keeps (expr id kind at) = Keeps-lift _

  -- From a valid environment, a statement that is evaluated, whether it returns early or not, leads to a
  -- valid environment with the same frames below the current one and the same number of scopes in it,
  -- whose outer scopes have the names they had, and whose innermost scope has at least these.
  pub eval_stmt-Grown :
      (st : Stmt) (s t : State (host.World)) (flow : Flow Value)
      → IsValid s.env
      → eval_stmt host program calls st s ≡ ok (flow, t)
      → IsValid t.env × GrownFrames s.env.frames t.env.frames
  eval_stmt-Grown st s t flow v h =
      let out = (stmt-Keeps st).at s t flow v h in (out.still_valid, out.grown)
