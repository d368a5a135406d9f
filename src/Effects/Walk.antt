-- ===== src/Effects/Walk.antt =====
-- src/effects/mod.rs: the walk of a body, as the list of the calls in the order in which it finds them.
-- The inside of a lambda is left out: its effects are in the lambda's type.
use yabumi.Common.{true, false, List, [], ◌∷◌, ◌++◌, some, none}
use yabumi.Ast.Expr.{
  Expr, expr, int_lit, float_lit, bool_lit, string_lit, f_string, ident, list_lit, dict_lit,
  set_lit, tuple_lit, unary, binary, call, method_call, field_access, tuple_index, index, question,
  pipe, lambda, if_expr, match_expr, par, grouping, Exprs, no_exprs, cons_expr, ExprEntries,
  no_entries, cons_entry, Segments, no_segments, cons_text, cons_hole, Args, no_args, cons_arg,
  PipeStages, no_stages, cons_stage, bare, with_args, IfExpr, mk_if, ElseBranch, else_block,
  else_if, MatchArms, no_arms, cons_arm, MatchArmBody, body_expr, body_block, Block, block, Stmts,
  no_stmts, cons_stmt, Stmt, stmt, var_decl, name_assign, field_assign, index_assign, discard,
  return_void, return_value, expr_stmt,
}
use yabumi.Effects.Site.{CallSite}

unfoldable mutual
  pub walk_block_calls : Block → List CallSite
  walk_block_calls (block ss at) = walk_stmts ss

  pub walk_stmts : Stmts → List CallSite
  walk_stmts no_stmts = []
  walk_stmts (cons_stmt s rest) = walk_stmt_calls s ++ walk_stmts rest

  pub walk_stmt_calls : Stmt → List CallSite
  walk_stmt_calls (stmt (var_decl name ty e) at) = walk_expr_calls e
  walk_stmt_calls (stmt (name_assign name ty e) at) = walk_expr_calls e
  walk_stmt_calls (stmt (field_assign target field e) at) =
      walk_expr_calls target ++ walk_expr_calls e
  walk_stmt_calls (stmt (index_assign target key e) at) =
      walk_expr_calls target ++ (walk_expr_calls key ++ walk_expr_calls e)
  walk_stmt_calls (stmt (discard e) at) = walk_expr_calls e
  walk_stmt_calls (stmt (expr_stmt e) at) = walk_expr_calls e
  walk_stmt_calls (stmt (return_value e) at) = walk_expr_calls e
  walk_stmt_calls (stmt return_void at) = []

  pub walk_expr_calls : Expr → List CallSite
  walk_expr_calls (expr id (int_lit n) at) = []
  walk_expr_calls (expr id (float_lit x) at) = []
  walk_expr_calls (expr id (bool_lit b) at) = []
  walk_expr_calls (expr id (string_lit s) at) = []
  walk_expr_calls (expr id (ident name) at) = []
  walk_expr_calls (expr id (lambda params body) at) = []
  walk_expr_calls (expr id (f_string segments) at) = walk_segments segments
  walk_expr_calls (expr id (list_lit es) at) = walk_exprs es
  walk_expr_calls (expr id (set_lit es) at) = walk_exprs es
  walk_expr_calls (expr id (tuple_lit es) at) = walk_exprs es
  walk_expr_calls (expr id (par kind es) at) = walk_exprs es
  walk_expr_calls (expr id (dict_lit es) at) = walk_entries es
  walk_expr_calls (expr id (unary op e) at) = walk_expr_calls e
  walk_expr_calls (expr id (binary op l r) at) = walk_expr_calls l ++ walk_expr_calls r
  walk_expr_calls (expr id (call callee targs args) at) =
      walk_expr_calls callee ++ (walk_args args ++ CallSite.call at callee args ∷ [])
  walk_expr_calls (expr id (method_call receiver name targs args) at) =
      walk_expr_calls receiver ++ (walk_args args ++ CallSite.method at receiver name args ∷ [])
  walk_expr_calls (expr id (field_access target field) at) = walk_expr_calls target
  walk_expr_calls (expr id (tuple_index target i) at) = walk_expr_calls target
  walk_expr_calls (expr id (index target key) at) = walk_expr_calls target ++ walk_expr_calls key
  walk_expr_calls (expr id (question target) at) = walk_expr_calls target
  walk_expr_calls (expr id (pipe source stages) at) =
      walk_expr_calls source ++ walk_pipe_calls source stages
  walk_expr_calls (expr id (if_expr e) at) = walk_if_calls e
  walk_expr_calls (expr id (match_expr scrutinee arms) at) =
      walk_expr_calls scrutinee ++ walk_arms arms
  walk_expr_calls (expr id (grouping inner) at) = walk_expr_calls inner

  pub walk_segments : Segments → List CallSite
  walk_segments no_segments = []
  walk_segments (cons_text t rest) = walk_segments rest
  walk_segments (cons_hole e rest) = walk_expr_calls e ++ walk_segments rest

  pub walk_exprs : Exprs → List CallSite
  walk_exprs no_exprs = []
  walk_exprs (cons_expr e rest) = walk_expr_calls e ++ walk_exprs rest

  pub walk_entries : ExprEntries → List CallSite
  walk_entries no_entries = []
  walk_entries (cons_entry k v rest) = walk_expr_calls k ++ (walk_expr_calls v ++ walk_entries rest)

  pub walk_args : Args → List CallSite
  walk_args no_args = []
  walk_args (cons_arg name e placeholder rest) = walk_expr_calls e ++ walk_args rest

  -- The stages of a pipe; the placeholder among the arguments of one is not walked.
  pub walk_pipe_calls : Expr → PipeStages → List CallSite
  walk_pipe_calls source no_stages = []
  walk_pipe_calls source (cons_stage (bare callee) unwraps at rest) =
      walk_expr_calls callee ++ CallSite.pipe at callee source none ∷ walk_pipe_calls source rest
  walk_pipe_calls source (cons_stage (with_args callee args) unwraps at rest) =
      walk_expr_calls callee
      ++ (walk_stage_args args
          ++ CallSite.pipe at callee source (some args) ∷ walk_pipe_calls source rest)

  pub walk_stage_args : Args → List CallSite
  walk_stage_args no_args = []
  walk_stage_args (cons_arg name e true rest) = walk_stage_args rest
  walk_stage_args (cons_arg name e false rest) = walk_expr_calls e ++ walk_stage_args rest

  pub walk_if_calls : IfExpr → List CallSite
  walk_if_calls (mk_if c then_branch else_branch at) =
      walk_expr_calls c ++ (walk_block_calls then_branch ++ walk_else else_branch)

  pub walk_else : ElseBranch → List CallSite
  walk_else (else_block b) = walk_block_calls b
  walk_else (else_if inner) = walk_if_calls inner

  pub walk_arms : MatchArms → List CallSite
  walk_arms no_arms = []
  walk_arms (cons_arm p body at rest) = walk_body body ++ walk_arms rest

  pub walk_body : MatchArmBody → List CallSite
  walk_body (body_expr e) = walk_expr_calls e
  walk_body (body_block b) = walk_block_calls b
