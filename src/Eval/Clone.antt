-- ===== src/Eval/Clone.antt =====
-- src/eval/expr.rs: the copy of a lambda's body. It drops the type annotations, which the evaluator does
-- not read.
pub mod Twice
use yabumi.Common.{Option, none, List, [], ◌∷◌}
use yabumi.Ast.Expr.{
  Expr, expr, ExprKind, int_lit, float_lit, bool_lit, string_lit, f_string, ident, list_lit,
  dict_lit, set_lit, tuple_lit, unary, binary, call, method_call, field_access, tuple_index, index,
  question, pipe, lambda, if_expr, match_expr, par, grouping, Exprs, no_exprs, cons_expr,
  ExprEntries, no_entries, cons_entry, Segments, no_segments, cons_text, cons_hole, Args, no_args,
  cons_arg, PipeStages, no_stages, cons_stage, PipeCallee, bare, with_args, IfExpr, mk_if,
  ElseBranch, else_block, else_if, MatchArms, no_arms, cons_arm, MatchArmBody, body_expr,
  body_block, Block, block, Stmts, no_stmts, cons_stmt, Stmt, stmt, StmtKind, var_decl, name_assign,
  field_assign, index_assign, discard, return_void, return_value, expr_stmt, LambdaParam,
}
use yabumi.Ast.TypeAnn.{TypeAnns}

unfoldable pub clone_params : List LambdaParam → List LambdaParam
clone_params [] = []
clone_params (p ∷ ps) = record { name = p.name; ty = none; span = p.span } ∷ clone_params ps

unfoldable mutual
  unfolding clone_params

  pub clone_expr : Expr → Expr
  clone_expr (expr id kind at) = expr id (clone_expr_kind kind) at

  pub clone_expr_kind : ExprKind → ExprKind
  clone_expr_kind (int_lit n) = int_lit n
  clone_expr_kind (float_lit x) = float_lit x
  clone_expr_kind (bool_lit b) = bool_lit b
  clone_expr_kind (string_lit s) = string_lit s
  clone_expr_kind (f_string segments) = f_string (clone_segments segments)
  clone_expr_kind (ident name) = ident name
  clone_expr_kind (list_lit es) = list_lit (clone_exprs es)
  clone_expr_kind (dict_lit es) = dict_lit (clone_entries es)
  clone_expr_kind (set_lit es) = set_lit (clone_exprs es)
  clone_expr_kind (tuple_lit es) = tuple_lit (clone_exprs es)
  clone_expr_kind (unary op e) = unary op (clone_expr e)
  clone_expr_kind (binary op l r) = binary op (clone_expr l) (clone_expr r)
  clone_expr_kind (call callee targs args) =
      call (clone_expr callee) TypeAnns.none (clone_args args)
  clone_expr_kind (method_call receiver method targs args) =
      method_call (clone_expr receiver) method TypeAnns.none (clone_args args)
  clone_expr_kind (field_access target field) = field_access (clone_expr target) field
  clone_expr_kind (tuple_index target i) = tuple_index (clone_expr target) i
  clone_expr_kind (index target key) = index (clone_expr target) (clone_expr key)
  clone_expr_kind (question target) = question (clone_expr target)
  clone_expr_kind (pipe source stages) = pipe (clone_expr source) (clone_stages stages)
  clone_expr_kind (lambda params body) = lambda (clone_params params) (clone_expr body)
  clone_expr_kind (if_expr e) = if_expr (clone_if_expr e)
  clone_expr_kind (match_expr scrutinee arms) = match_expr (clone_expr scrutinee) (clone_arms arms)
  clone_expr_kind (par kind es) = par kind (clone_exprs es)
  clone_expr_kind (grouping inner) = grouping (clone_expr inner)

  pub clone_exprs : Exprs → Exprs
  clone_exprs no_exprs = no_exprs
  clone_exprs (cons_expr e rest) = cons_expr (clone_expr e) (clone_exprs rest)

  pub clone_entries : ExprEntries → ExprEntries
  clone_entries no_entries = no_entries
  clone_entries (cons_entry k v rest) =
      cons_entry (clone_expr k) (clone_expr v) (clone_entries rest)

  pub clone_segments : Segments → Segments
  clone_segments no_segments = no_segments
  clone_segments (cons_text t rest) = cons_text t (clone_segments rest)
  clone_segments (cons_hole e rest) = cons_hole (clone_expr e) (clone_segments rest)

  pub clone_args : Args → Args
  clone_args no_args = no_args
  clone_args (cons_arg name e placeholder rest) =
      cons_arg name (clone_expr e) placeholder (clone_args rest)

  pub clone_stages : PipeStages → PipeStages
  clone_stages no_stages = no_stages
  clone_stages (cons_stage callee unwraps at rest) =
      cons_stage (clone_callee callee) unwraps at (clone_stages rest)

  pub clone_callee : PipeCallee → PipeCallee
  clone_callee (bare callee) = bare (clone_expr callee)
  clone_callee (with_args callee args) = with_args (clone_expr callee) (clone_args args)

  pub clone_if_expr : IfExpr → IfExpr
  clone_if_expr (mk_if c then_branch else_branch at) =
      mk_if (clone_expr c) (clone_block then_branch) (clone_else else_branch) at

  pub clone_else : ElseBranch → ElseBranch
  clone_else (else_block b) = else_block (clone_block b)
  clone_else (else_if inner) = else_if (clone_if_expr inner)

  pub clone_arms : MatchArms → MatchArms
  clone_arms no_arms = no_arms
  clone_arms (cons_arm p body at rest) = cons_arm p (clone_body body) at (clone_arms rest)

  pub clone_body : MatchArmBody → MatchArmBody
  clone_body (body_expr e) = body_expr (clone_expr e)
  clone_body (body_block b) = body_block (clone_block b)

  pub clone_block : Block → Block
  clone_block (block ss at) = block (clone_stmts ss) at

  pub clone_stmts : Stmts → Stmts
  clone_stmts no_stmts = no_stmts
  clone_stmts (cons_stmt s rest) = cons_stmt (clone_stmt s) (clone_stmts rest)

  pub clone_stmt : Stmt → Stmt
  clone_stmt (stmt kind at) = stmt (clone_stmt_kind kind) at

  pub clone_stmt_kind : StmtKind → StmtKind
  clone_stmt_kind (var_decl name ty e) = var_decl name none (clone_expr e)
  clone_stmt_kind (name_assign name ty e) = name_assign name none (clone_expr e)
  clone_stmt_kind (field_assign target field e) =
      field_assign (clone_expr target) field (clone_expr e)
  clone_stmt_kind (index_assign target key e) =
      index_assign (clone_expr target) (clone_expr key) (clone_expr e)
  clone_stmt_kind (discard e) = discard (clone_expr e)
  clone_stmt_kind return_void = return_void
  clone_stmt_kind (return_value e) = return_value (clone_expr e)
  clone_stmt_kind (expr_stmt e) = expr_stmt (clone_expr e)
