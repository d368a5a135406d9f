-- ===== src/Tests/Script.antt =====
-- A small program on which the evaluator runs: `f` calls itself, `sum` adds the numbers down from its
-- argument, and `double` doubles it. The world is what was printed.
use yabumi.Common.{
  ℕ, ◌+◌, ◌-◌, ◌==◌, ltb, leb, false, List, [], ◌∷◌, Option, some, none, Text, text, if◌then◌else◌,
}
use yabumi.Common.Int.{pos}
use yabumi.Ast.Decl.{FunctionDecl, Param, Item}
use yabumi.Ast.Expr.{
  Expr, expr, ident, int_lit, binary, call, if_expr, mk_if, else_block, add, sub, eq_eq, Args,
  no_args, cons_arg, Block, block, no_stmts, cons_stmt, stmt, return_value, name_assign, expr_stmt,
}
use yabumi.Ast.Pattern.{NodeId}
use yabumi.Ast.TypeAnn.{TypeAnn, TypeAnnKind, TypeAnns}
use yabumi.Diagnostics.Position.{Span}
use yabumi.Types.Resolutions.{Resolutions, CallKind, function_call}
use yabumi.Eval.Float.{FloatOps}
use yabumi.Eval.Host.{Host}
use yabumi.Eval.Call.{Calls}
use yabumi.Eval.Flow.{State}
use yabumi.Eval.Panic.{unreachable}
use yabumi.Eval.Program.{Program}
use yabumi.Eval.Run.{calls_within, worker_within}

abbrev pub at : Span
at = record { file = 0; start = record { line = 1; col = 1 }; end = record { line = 1; col = 4 } }

abbrev pub floats : FloatOps
floats = record {
  add = λ a b. a + b;
  sub = λ a b. a - b;
  mul = λ a b. a;
  div = λ a b. a;
  neg = λ a. a;
  lt = ltb;
  le = leb;
  eq = λ a b. a == b;
}

abbrev pub host : Host
host = record {
  World = List Text;
  floats = floats;
  float_text = λ x. [];
  display_float = λ x. [];
  float_from_int = λ n. 0;
  int_from_float = λ x. none;
  debug_text = λ v. [];
  source_text = λ s. [];
  print = λ s w. s ∷ w;
  eprint = λ s w. w;
  shuffle = λ vs w. (vs, w);
  namespace_call = λ ns name args id first w. unreachable;
  method = λ caller id s v name args w. unreachable;
}

-- Every call whose id is below 100 is that of a declared function.
abbrev pub kinds : NodeId → Option CallKind
kinds id = if ltb id 100 then some function_call else none

abbrev pub resolutions : Resolutions
resolutions = record {
  field_index = λ id. none;
  type_args = λ id. none;
  decode_target = λ id. none;
  bare_ident_kind = λ id. none;
  call_kind = kinds;
  ident_def = λ id. none;
  expr_ty = λ id. none;
  implicit_wrap = λ id. none;
  namespace_ref = λ id. none;
  csv_encode_target = λ id. none;
  hof_forwarding = λ id. none;
}

abbrev pub int_ann : TypeAnn
int_ann = TypeAnn.type_ann (TypeAnnKind.named (text "int") TypeAnns.none) at

abbrev pub var : Text → Expr
var name = expr 200 (ident name) at

abbrev pub num : ℕ → Expr
num n = expr 201 (int_lit (pos n)) at

abbrev pub one_arg : Expr → Args
one_arg e = cons_arg none e false no_args

abbrev pub call_of : Text → Args → Expr
call_of name args = expr 1 (call (var name) TypeAnns.none args) at

abbrev pub return_block : Expr → Block
return_block e = block (cons_stmt (stmt (return_value e) at) no_stmts) at

abbrev pub declare : Text → List Param → Block → FunctionDecl
declare name params body = record {
  id = 0;
  name = name;
  generics = [];
  self_param = none;
  params = params;
  ret = int_ann;
  effects = [];
  body = body;
  span = at;
}

abbrev pub n_param : List Param
n_param = record { name = text "n"; ty = int_ann; span = at } ∷ []

abbrev pub loop : FunctionDecl
loop = declare (text "f") [] (return_block (call_of (text "f") no_args))

abbrev pub double : FunctionDecl
double =
    declare (text "double") n_param
      (return_block (expr 202 (binary add (var (text "n")) (var (text "n"))) at))

-- if n == 0 { return 0 } else { return n + sum(n - 1) }
abbrev pub sum : FunctionDecl
sum = declare (text "sum") n_param (
    block
      (cons_stmt
        (stmt
          (expr_stmt (
            expr 203
              (if_expr (
                mk_if (expr 204 (binary eq_eq (var (text "n")) (num 0)) at) (return_block (num 0))
                  (else_block (
                    return_block (
                      expr 205
                        (binary add (var (text "n")) (
                          call_of (text "sum")
                            (one_arg (expr 206 (binary sub (var (text "n")) (num 1)) at))))
                        at)))
                  at))
              at))
          at)
        no_stmts)
      at)

abbrev pub program : Program
program = record {
  functions = (text "f", loop) ∷ (text "sum", sum) ∷ (text "double", double) ∷ [];
  structs = [];
  enums = [];
  consts = [];
  resolutions = resolutions;
  abort_process_on_par_panic = false;
}

abbrev pub calls : Calls (List Text)
calls = calls_within host program (worker_within host program 2) 20

abbrev pub start : State (List Text)
start = record { env = record { frames = record { scopes = [] ∷ [] } ∷ [] }; world = [] }

abbrev pub assign : Text → Expr → Item
assign name e = Item.statement (stmt (name_assign name none e) at)
