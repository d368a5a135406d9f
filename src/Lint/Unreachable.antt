-- ===== src/Lint/Unreachable.antt =====
-- src/lint/mod.rs and src/lint/unreachable.rs: the lint of statements behind a `return`, as the visitor that
-- it is, with the diagnostics in the order in which it pushes them.
pub mod Laws
use yabumi.Diagnostics.Position.{Span}
use yabumi.Common.{Bool, true, false, List, [], ◌∷◌, ◌++◌, some, none}
use yabumi.Ast.Expr.{
  StmtKind, Expr, expr, int_lit, float_lit, bool_lit, string_lit, f_string, ident, list_lit,
  dict_lit, set_lit, tuple_lit, unary, binary, call, method_call, field_access, tuple_index, index,
  question, pipe, lambda, if_expr, match_expr, par, grouping, Exprs, no_exprs, cons_expr,
  ExprEntries, no_entries, cons_entry, Segments, no_segments, cons_text, cons_hole, Args, no_args,
  cons_arg, PipeStages, no_stages, cons_stage, bare, with_args, IfExpr, mk_if, ElseBranch,
  else_block, else_if, MatchArms, no_arms, cons_arm, MatchArmBody, body_expr, body_block, Block,
  block, Stmts, no_stmts, cons_stmt, Stmt, stmt, var_decl, name_assign, field_assign, index_assign,
  discard, return_void, return_value, expr_stmt,
}
use yabumi.Common.{text, Text, text_eq, any, leb, ◌-◌, ◌&&◌, if◌then◌else◌, ℕ}
use yabumi.Common.TextMap.{TextMap}
use yabumi.Ast.Decl.{FunctionDecl, StructDecl}
use yabumi.Diagnostics.Codes.{unreachable_code}
use yabumi.Diagnostics.Diagnostic.{Diagnostic}
use yabumi.Eval.Program.{Program}

abbrev pub is_return : StmtKind → Bool
is_return return_void = true
is_return (return_value e) = true
is_return _ = false

abbrev stmt_span : Stmt → Span
stmt_span (stmt kind at) = at

abbrev unreachable_code_at : Span → Diagnostic
unreachable_code_at at = record {
  code = unreachable_code;
  span = at;
  message = text "code immediately after a `return` statement is unreachable (D-LINT-04)";
}

-- The statement behind one, where the first is a `return`.
abbrev pub next_of : Bool → Stmts → List Diagnostic
next_of true (cons_stmt next rest) = unreachable_code_at (stmt_span next) ∷ []
next_of true no_stmts = []
next_of false rest = []

unfoldable pub unreachable_in : Stmts → List Diagnostic
unreachable_in no_stmts = []
unreachable_in (cons_stmt (stmt kind at) rest) =
    next_of (is_return kind) rest ++ unreachable_in rest

unfoldable mutual
  unfolding unreachable_in

  pub visit_block : Block → List Diagnostic
  visit_block (block ss at) = unreachable_in ss ++ visit_stmts ss

  pub visit_stmts : Stmts → List Diagnostic
  visit_stmts no_stmts = []
  visit_stmts (cons_stmt s rest) = visit_stmt s ++ visit_stmts rest

  pub visit_stmt : Stmt → List Diagnostic
  visit_stmt (stmt (var_decl name ty e) at) = visit_expr e
  visit_stmt (stmt (name_assign name ty e) at) = visit_expr e
  visit_stmt (stmt (field_assign target field e) at) = visit_expr target ++ visit_expr e
  visit_stmt (stmt (index_assign target key e) at) =
      visit_expr target ++ (visit_expr key ++ visit_expr e)
  visit_stmt (stmt (discard e) at) = visit_expr e
  visit_stmt (stmt (expr_stmt e) at) = visit_expr e
  visit_stmt (stmt (return_value e) at) = visit_expr e
  visit_stmt (stmt return_void at) = []

  pub visit_expr : Expr → List Diagnostic
  visit_expr (expr id (int_lit n) at) = []
  visit_expr (expr id (float_lit x) at) = []
  visit_expr (expr id (bool_lit b) at) = []
  visit_expr (expr id (string_lit s) at) = []
  visit_expr (expr id (ident name) at) = []
  visit_expr (expr id (lambda params body) at) = visit_expr body
  visit_expr (expr id (f_string segments) at) = visit_segments segments
  visit_expr (expr id (list_lit es) at) = visit_exprs es
  visit_expr (expr id (set_lit es) at) = visit_exprs es
  visit_expr (expr id (tuple_lit es) at) = visit_exprs es
  visit_expr (expr id (par kind es) at) = visit_exprs es
  visit_expr (expr id (dict_lit es) at) = visit_entries es
  visit_expr (expr id (unary op e) at) = visit_expr e
  visit_expr (expr id (binary op l r) at) = visit_expr l ++ visit_expr r
  visit_expr (expr id (call callee targs args) at) = visit_expr callee ++ (visit_args args)
  visit_expr (expr id (method_call receiver name targs args) at) =
      visit_expr receiver ++ visit_args args
  visit_expr (expr id (field_access target field) at) = visit_expr target
  visit_expr (expr id (tuple_index target i) at) = visit_expr target
  visit_expr (expr id (index target key) at) = visit_expr target ++ visit_expr key
  visit_expr (expr id (question target) at) = visit_expr target
  visit_expr (expr id (pipe source stages) at) = visit_expr source ++ visit_pipe stages
  visit_expr (expr id (if_expr e) at) = visit_if e
  visit_expr (expr id (match_expr scrutinee arms) at) = visit_expr scrutinee ++ visit_arms arms
  visit_expr (expr id (grouping inner) at) = visit_expr inner

  pub visit_segments : Segments → List Diagnostic
  visit_segments no_segments = []
  visit_segments (cons_text t rest) = visit_segments rest
  visit_segments (cons_hole e rest) = visit_expr e ++ visit_segments rest

  pub visit_exprs : Exprs → List Diagnostic
  visit_exprs no_exprs = []
  visit_exprs (cons_expr e rest) = visit_expr e ++ visit_exprs rest

  pub visit_entries : ExprEntries → List Diagnostic
  visit_entries no_entries = []
  visit_entries (cons_entry k v rest) = visit_expr k ++ (visit_expr v ++ visit_entries rest)

  pub visit_args : Args → List Diagnostic
  visit_args no_args = []
  visit_args (cons_arg name e placeholder rest) = visit_expr e ++ visit_args rest

  -- The stages of a pipe; the placeholder among the arguments of one is not walked.
  pub visit_pipe : PipeStages → List Diagnostic
  visit_pipe no_stages = []
  visit_pipe (cons_stage (bare callee) unwraps at rest) = visit_expr callee ++ visit_pipe rest
  visit_pipe (cons_stage (with_args callee args) unwraps at rest) =
      visit_expr callee ++ (visit_stage_args args ++ visit_pipe rest)

  pub visit_stage_args : Args → List Diagnostic
  visit_stage_args no_args = []
  visit_stage_args (cons_arg name e true rest) = visit_stage_args rest
  visit_stage_args (cons_arg name e false rest) = visit_expr e ++ visit_stage_args rest

  pub visit_if : IfExpr → List Diagnostic
  visit_if (mk_if c then_branch else_branch at) =
      visit_expr c ++ (visit_block then_branch ++ visit_else else_branch)

  pub visit_else : ElseBranch → List Diagnostic
  visit_else (else_block b) = visit_block b
  visit_else (else_if inner) = visit_if inner

  pub visit_arms : MatchArms → List Diagnostic
  visit_arms no_arms = []
  visit_arms (cons_arm p body at rest) = visit_body body ++ visit_arms rest

  pub visit_body : MatchArmBody → List Diagnostic
  visit_body (body_expr e) = visit_expr e
  visit_body (body_block b) = visit_block b

-- `is_builtin_function`: the declarations that the prelude installs.
unfoldable pub is_builtin_function : FunctionDecl → Bool
is_builtin_function decl =
    leb (4294967295 - 26) decl.id
    && any (text_eq decl.name) (
        text "int"
        ∷ text "float"
        ∷ text "str"
        ∷ text "print"
        ∷ text "eprint"
        ∷ text "assert"
        ∷ text "set"
        ∷ [])

unfoldable pub lint_functions : TextMap FunctionDecl → List Diagnostic
unfolding is_builtin_function visit_block
lint_functions [] = []
lint_functions ((name, decl) ∷ functions) =
    (if is_builtin_function decl then [] else visit_block decl.body) ++ lint_functions functions

unfoldable pub lint_methods : List FunctionDecl → List Diagnostic
unfolding visit_block
lint_methods [] = []
lint_methods (m ∷ ms) = visit_block m.body ++ lint_methods ms

unfoldable pub lint_structs : TextMap StructDecl → List Diagnostic
unfolding lint_methods
lint_structs [] = []
lint_structs ((name, decl) ∷ structs) = lint_methods decl.methods ++ lint_structs structs

-- `check` of the lint.
unfoldable pub check_unreachable : Program → List Diagnostic → List Diagnostic
unfolding lint_functions lint_structs
check_unreachable program diagnostics =
    diagnostics ++ (lint_functions program.functions ++ lint_structs program.structs)
