-- ===== src/Ast/Expr.antt =====
-- src/ast/expr.rs, src/ast/stmt.rs: expressions, statements and blocks, in one block of types. A
-- `Vec` of a type of the block is a type of the block. What is there for the formatter alone is left
-- out: comments, doc comments and `was_multiline`.
use yabumi.Common.{ℕ, Bool, List, Option, Text}
use yabumi.Common.Int.{ℤ}
use yabumi.Diagnostics.Position.{Span}
use yabumi.Ast.Pattern.{NodeId, F64, Pattern}
use yabumi.Ast.TypeAnn.{TypeAnn, TypeAnns}

pub data UnaryOp : Type 0 where
  neg not : UnaryOp

pub data BinaryOp : Type 0 where
  add sub mul div modulo lt lt_eq gt gt_eq eq_eq not_eq and or : BinaryOp

pub data ParKind : Type 0 where
  list tuple : ParKind

pub record LambdaParam : Type 0 where
  pub name : Text
  pub ty : Option TypeAnn
  pub span : Span

mutual
  pub data Expr : Type 0 where
    expr : NodeId → ExprKind → Span → Expr

  pub data ExprKind : Type 0 where
    int_lit : ℤ → ExprKind
    float_lit : F64 → ExprKind
    bool_lit : Bool → ExprKind
    string_lit : Text → ExprKind
    f_string : Segments → ExprKind
    ident : Text → ExprKind
    list_lit : Exprs → ExprKind
    dict_lit : ExprEntries → ExprKind
    set_lit : Exprs → ExprKind
    tuple_lit : Exprs → ExprKind
    unary : UnaryOp → Expr → ExprKind
    binary : BinaryOp → Expr → Expr → ExprKind
    call : Expr → TypeAnns → Args → ExprKind
    method_call : Expr → Text → TypeAnns → Args → ExprKind
    field_access : Expr → Text → ExprKind
    tuple_index : Expr → ℕ → ExprKind
    index : Expr → Expr → ExprKind
    question : Expr → ExprKind
    pipe : Expr → PipeStages → ExprKind
    lambda : List LambdaParam → Expr → ExprKind
    if_expr : IfExpr → ExprKind
    match_expr : Expr → MatchArms → ExprKind
    par : ParKind → Exprs → ExprKind
    grouping : Expr → ExprKind

  pub data Exprs : Type 0 where
    no_exprs : Exprs
    cons_expr : Expr → Exprs → Exprs

  pub data ExprEntries : Type 0 where
    no_entries : ExprEntries
    cons_entry : Expr → Expr → ExprEntries → ExprEntries

  -- `Vec<FStringSegment>`
  pub data Segments : Type 0 where
    no_segments : Segments
    cons_text : Text → Segments → Segments
    cons_hole : Expr → Segments → Segments

  -- `Vec<Arg>`: the name, the value and `is_placeholder`.
  pub data Args : Type 0 where
    no_args : Args
    cons_arg : Option Text → Expr → Bool → Args → Args

  -- `Vec<PipeStage>`: the callee, `question` and the span.
  pub data PipeStages : Type 0 where
    no_stages : PipeStages
    cons_stage : PipeCallee → Bool → Span → PipeStages → PipeStages

  pub data PipeCallee : Type 0 where
    bare : Expr → PipeCallee
    with_args : Expr → Args → PipeCallee

  pub data IfExpr : Type 0 where
    mk_if : Expr → Block → ElseBranch → Span → IfExpr

  pub data ElseBranch : Type 0 where
    else_block : Block → ElseBranch
    else_if : IfExpr → ElseBranch

  -- `Vec<MatchArm>`: the pattern, the body and the span.
  pub data MatchArms : Type 0 where
    no_arms : MatchArms
    cons_arm : Pattern → MatchArmBody → Span → MatchArms → MatchArms

  pub data MatchArmBody : Type 0 where
    body_expr : Expr → MatchArmBody
    body_block : Block → MatchArmBody

  pub data Block : Type 0 where
    block : Stmts → Span → Block

  pub data Stmts : Type 0 where
    no_stmts : Stmts
    cons_stmt : Stmt → Stmts → Stmts

  pub data Stmt : Type 0 where
    stmt : StmtKind → Span → Stmt

  pub data StmtKind : Type 0 where
    var_decl : Text → Option TypeAnn → Expr → StmtKind
    name_assign : Text → Option TypeAnn → Expr → StmtKind
    field_assign : Expr → Text → Expr → StmtKind
    index_assign : Expr → Expr → Expr → StmtKind
    discard : Expr → StmtKind
    return_void : StmtKind
    return_value : Expr → StmtKind
    expr_stmt : Expr → StmtKind
