-- ===== src/Eval/Clone/Twice.antt =====
-- A copy of a copy is the copy.
use yabumi.Common.{◌≡◌, refl, List, [], ◌∷◌}
use yabumi.Ast.Expr.{
  Expr, expr, ExprKind, f_string, list_lit, dict_lit, set_lit, tuple_lit, unary, binary, call,
  method_call, field_access, tuple_index, index, question, pipe, lambda, if_expr, match_expr, par,
  grouping, Exprs, no_exprs, cons_expr, ExprEntries, no_entries, cons_entry, Segments, no_segments,
  cons_text, cons_hole, Args, no_args, cons_arg, PipeStages, no_stages, cons_stage, PipeCallee,
  bare, with_args, IfExpr, mk_if, ElseBranch, else_block, else_if, MatchArms, no_arms, cons_arm,
  MatchArmBody, body_expr, body_block, Block, block, Stmts, no_stmts, cons_stmt, Stmt, stmt,
  StmtKind, var_decl, name_assign, field_assign, index_assign, discard, return_void, return_value,
  expr_stmt, LambdaParam,
}
use yabumi.Eval.Clone.{
  clone_params, clone_expr, clone_expr_kind, clone_exprs, clone_entries, clone_segments, clone_args,
  clone_stages, clone_callee, clone_if_expr, clone_else, clone_arms, clone_body, clone_block,
  clone_stmts, clone_stmt, clone_stmt_kind,
}

pub clone_params-twice : (ps : List LambdaParam) → clone_params (clone_params ps) ≡ clone_params ps
unfolding clone_params
clone_params-twice [] = refl
clone_params-twice (p ∷ ps) = rw (clone_params-twice ps)

mutual
  unfolding clone_expr

  pub clone_expr-twice : (e : Expr) → clone_expr (clone_expr e) ≡ clone_expr e
  clone_expr-twice (expr id kind at) = rw (kind_twice kind)

  kind_twice : (k : ExprKind) → clone_expr_kind (clone_expr_kind k) ≡ clone_expr_kind k
  kind_twice (f_string segments) = rw (segments_twice segments)
  kind_twice (list_lit es) = rw (exprs_twice es)
  kind_twice (dict_lit es) = rw (entries_twice es)
  kind_twice (set_lit es) = rw (exprs_twice es)
  kind_twice (tuple_lit es) = rw (exprs_twice es)
  kind_twice (unary op e) = rw (clone_expr-twice e)
  kind_twice (binary op l r) = rw (clone_expr-twice l, clone_expr-twice r)
  kind_twice (call callee targs args) = rw (clone_expr-twice callee, args_twice args)
  kind_twice (method_call receiver method targs args) =
      rw (clone_expr-twice receiver, args_twice args)
  kind_twice (field_access target field) = rw (clone_expr-twice target)
  kind_twice (tuple_index target i) = rw (clone_expr-twice target)
  kind_twice (index target key) = rw (clone_expr-twice target, clone_expr-twice key)
  kind_twice (question target) = rw (clone_expr-twice target)
  kind_twice (pipe source stages) = rw (clone_expr-twice source, stages_twice stages)
  kind_twice (lambda params body) = rw (clone_params-twice params, clone_expr-twice body)
  kind_twice (if_expr e) = rw (if_twice e)
  kind_twice (match_expr scrutinee arms) = rw (clone_expr-twice scrutinee, arms_twice arms)
  kind_twice (par kind es) = rw (exprs_twice es)
  kind_twice (grouping inner) = rw (clone_expr-twice inner)
  kind_twice _ = refl

  exprs_twice : (es : Exprs) → clone_exprs (clone_exprs es) ≡ clone_exprs es
  exprs_twice no_exprs = refl
  exprs_twice (cons_expr e rest) = rw (clone_expr-twice e, exprs_twice rest)

  entries_twice : (es : ExprEntries) → clone_entries (clone_entries es) ≡ clone_entries es
  entries_twice no_entries = refl
  entries_twice (cons_entry k v rest) =
      rw (clone_expr-twice k, clone_expr-twice v, entries_twice rest)

  segments_twice : (ss : Segments) → clone_segments (clone_segments ss) ≡ clone_segments ss
  segments_twice no_segments = refl
  segments_twice (cons_text t rest) = rw (segments_twice rest)
  segments_twice (cons_hole e rest) = rw (clone_expr-twice e, segments_twice rest)

  args_twice : (args : Args) → clone_args (clone_args args) ≡ clone_args args
  args_twice no_args = refl
  args_twice (cons_arg name e placeholder rest) = rw (clone_expr-twice e, args_twice rest)

  stages_twice : (ss : PipeStages) → clone_stages (clone_stages ss) ≡ clone_stages ss
  stages_twice no_stages = refl
  stages_twice (cons_stage callee unwraps at rest) = rw (callee_twice callee, stages_twice rest)

  callee_twice : (c : PipeCallee) → clone_callee (clone_callee c) ≡ clone_callee c
  callee_twice (bare callee) = rw (clone_expr-twice callee)
  callee_twice (with_args callee args) = rw (clone_expr-twice callee, args_twice args)

  if_twice : (e : IfExpr) → clone_if_expr (clone_if_expr e) ≡ clone_if_expr e
  if_twice (mk_if c then_branch else_branch at) =
      rw (clone_expr-twice c, block_twice then_branch, else_twice else_branch)

  else_twice : (b : ElseBranch) → clone_else (clone_else b) ≡ clone_else b
  else_twice (else_block b) = rw (block_twice b)
  else_twice (else_if inner) = rw (if_twice inner)

  arms_twice : (arms : MatchArms) → clone_arms (clone_arms arms) ≡ clone_arms arms
  arms_twice no_arms = refl
  arms_twice (cons_arm p body at rest) = rw (body_twice body, arms_twice rest)

  body_twice : (b : MatchArmBody) → clone_body (clone_body b) ≡ clone_body b
  body_twice (body_expr e) = rw (clone_expr-twice e)
  body_twice (body_block b) = rw (block_twice b)

  block_twice : (b : Block) → clone_block (clone_block b) ≡ clone_block b
  block_twice (block ss at) = rw (stmts_twice ss)

  stmts_twice : (ss : Stmts) → clone_stmts (clone_stmts ss) ≡ clone_stmts ss
  stmts_twice no_stmts = refl
  stmts_twice (cons_stmt s rest) = rw (stmt_twice s, stmts_twice rest)

  stmt_twice : (s : Stmt) → clone_stmt (clone_stmt s) ≡ clone_stmt s
  stmt_twice (stmt kind at) = rw (stmt_kind_twice kind)

  stmt_kind_twice : (k : StmtKind) → clone_stmt_kind (clone_stmt_kind k) ≡ clone_stmt_kind k
  stmt_kind_twice (var_decl name ty e) = rw (clone_expr-twice e)
  stmt_kind_twice (name_assign name ty e) = rw (clone_expr-twice e)
  stmt_kind_twice (field_assign target field e) = rw (clone_expr-twice target, clone_expr-twice e)
  stmt_kind_twice (index_assign target key e) =
      rw (clone_expr-twice key, clone_expr-twice target, clone_expr-twice e)
  stmt_kind_twice (discard e) = rw (clone_expr-twice e)
  stmt_kind_twice return_void = refl
  stmt_kind_twice (return_value e) = rw (clone_expr-twice e)
  stmt_kind_twice (expr_stmt e) = rw (clone_expr-twice e)
