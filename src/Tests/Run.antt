-- ===== src/Tests/Run.antt =====
-- The theorems of the evaluator at a small program.
use yabumi.Common.{
  true, ℕ, List, Text, length, false, [], ◌∷◌, some, none, text, text_eq, ◌≡◌, refl,
}
use yabumi.Common.Int.{pos}
use yabumi.Ast.Decl.{Item}
use yabumi.Ast.Expr.{
  Expr, expr, ident, binary, call, lambda, pipe, cons_stage, no_stages, bare, add, no_args,
  cons_arg, LambdaParam,
}
use yabumi.Ast.TypeAnn.{TypeAnns}
use yabumi.Eval.Env.{with_frame, try_lookup}
use yabumi.Eval.Env.Laws.{IsValid}
use yabumi.Eval.Expr.{eval_expr}
use yabumi.Common.TextMap.{contains_key, get, insert}
use yabumi.Eval.Call.Builtin.{eval_ident, is_flat_builtin}
use yabumi.Eval.Call.{lambda_scope, bind_params}
use yabumi.Eval.Ops.{eval_binary}
use yabumi.Eval.Ops.Equality.{value_eq}
use yabumi.Eval.Env.{push_scope, pop_scope, bind, lookup_mut, find_in}
use yabumi.Eval.Lvalue.{wrap_return, assign_name, Place, PlacePath, resolve_captured_place}
use yabumi.Lint.Unreachable.{unreachable_in}
use yabumi.Diagnostics.Position.{Span}
use yabumi.Lint.Unreachable.Laws.{
  unreachable_in-spans, spans, over, span_behind, size, Unreachable, returns_at, up_to,
}
use yabumi.Eval.Expr.{eval_block}
use yabumi.Ast.Expr.{Stmts, cons_stmt, no_stmts, stmt, return_value, name_assign, block}
use yabumi.Eval.Run.{body_result}
use yabumi.Eval.Value.Key.{key_eq}
use yabumi.Common.Int.{◌+ℤ◌, ◌-ℤ◌}
use yabumi.Eval.Flow.{◌>>=◌, lift, does, asks, leave, update, scoped, Flow, State, pure}
use yabumi.Eval.Panic.{ok, abort, stack_overflow}
use yabumi.Eval.Run.Laws.{run_top_level-Grown, eval_expr-clone, self_call-stack_overflow}
use yabumi.Eval.Expr.Contract.{pipe-call, method_on_place-writes}
use yabumi.Eval.Expr.Capture.{lambda-captures, is_param}
use yabumi.Eval.Flow.Keeps.{GrownFrames}
use yabumi.Eval.Clone.{clone_expr, clone_params}
use yabumi.Eval.Call.Mutation.{Mutation, classify_mutation, mutate}
use yabumi.Stdlib.Collections.{list_push}
use yabumi.Eval.Steps.{method_on_place}
use yabumi.Eval.Run.{calls_within, worker_within, run_top_level}
use yabumi.Eval.Value.{Value, Values, nil, cons, Captured, CallTarget}
use yabumi.Tests.Script.{
  at, host, var, num, one_arg, call_of, loop, double, program, calls, start, assign,
}

sum_of_four :
    eval_expr host program calls (call_of (text "sum") (one_arg (num 4))) start
    ≡ ok (Flow.value (Value.int (pos 10)), start)
unfolding eval_expr calls_within ◌>>=◌ lift get text_eq pure does asks leave update scoped
    eval_ident try_lookup with_frame bind_params insert eval_binary value_eq push_scope pop_scope
    ◌-ℤ◌ ◌+ℤ◌ find_in wrap_return body_result key_eq
sum_of_four = refl

abbrev five : State (List Text)
five = record {
  env = record { frames = record { scopes = ((text "x", Value.int (pos 5)) ∷ []) ∷ [] } ∷ [] };
  world = [];
}

abbrev script : List Item
script = assign (text "x") (expr 207 (binary add (num 2) (num 3)) at) ∷ []

script_runs : run_top_level host program calls script start ≡ ok five
unfolding run_top_level eval_expr ◌>>=◌ lift pure update assign_name try_lookup find_in get bind
    insert eval_binary ◌+ℤ◌ text_eq
script_runs = refl

start-IsValid : IsValid (start.env)
start-IsValid = IsValid.valid [] [] [] tt tt tt

run_top_level-Grown_example : IsValid (five.env) × GrownFrames (start.env.frames) (five.env.frames)
run_top_level-Grown_example =
    run_top_level-Grown host program calls script start five start-IsValid script_runs

eval_expr-clone_example :
    eval_expr host program
      (calls_within host program (worker_within host program 2) 20)
      (clone_expr (call_of (text "sum") (one_arg (num 4))))
      start
    ≡ eval_expr host program
        (calls_within host program (worker_within host program 2) 20)
        (call_of (text "sum") (one_arg (num 4)))
        start
eval_expr-clone_example =
    eval_expr-clone host program 2 20 (call_of (text "sum") (one_arg (num 4))) start

get-f : get (text "f") program.functions ≡ some loop
unfolding get text_eq
get-f = refl

self_call-stack_overflow_example :
    (calls_within host program (worker_within host program 2) 20).function loop nil []
    ≡ abort (stack_overflow at)
self_call-stack_overflow_example =
    self_call-stack_overflow host program (worker_within host program 2) 20 loop (text "f") 1 200 at
      at at at nil [] refl get-f refl

get-double : get (text "double") program.functions ≡ some double
unfolding get text_eq
get-double = refl

not_builtin : is_flat_builtin (text "double") ≡ false
unfolding is_flat_builtin text_eq
not_builtin = refl

double_unseen :
    (v : Value) (t : State (List Text))
    → eval_expr host program calls (num 21) start ≡ ok (Flow.value v, t)
    → try_lookup (text "double") t.env ≡ ok none
unfolding eval_expr pure try_lookup find_in get
double_unseen v t h = let e : start ≡ t = cc in rw (← e) refl

pipe-call_example :
    eval_expr host program calls
      (expr 208
        (pipe (num 21) (cons_stage (bare (expr 209 (ident (text "double")) at)) false at no_stages))
        at)
      start
    ≡ eval_expr host program calls
        (expr 1
          (call
            (expr 200 (ident (text "double")) at)
            TypeAnns.none
            (cons_arg none (num 21) false no_args))
          at)
        start
pipe-call_example =
    pipe-call host program calls (num 21) (text "double") double 208 209 1 200 at at at at at start
      not_builtin get-double refl double_unseen

-- xs = [7], and `xs.push(8)`.
abbrev list_env : State (List Text)
list_env = record {
  env = record {
    frames =
        record { scopes = ((text "xs", Value.list (cons (Value.int (pos 7)) nil)) ∷ []) ∷ [] } ∷ [];
  };
  world = [];
}

abbrev xs_place : Place
xs_place = record { here = Value.list (cons (Value.int (pos 7)) nil); put = λ w. w }

abbrev xs_path : PlacePath
xs_path = record { root = text "xs"; steps = [] }

abbrev eight : Values
eight = cons (Value.int (pos 8)) nil

abbrev pushed : Value
pushed = Value.list (cons (Value.int (pos 7)) eight)

xs_found : resolve_captured_place xs_path (list_env.env) program false ≡ ok xs_place
unfolding resolve_captured_place lookup_mut find_in get text_eq
xs_found = refl

xs_push : classify_mutation program (xs_place.here) (text "push") ≡ some Mutation.list
unfolding classify_mutation text_eq
xs_push = refl

xs_pushed :
    mutate host calls Mutation.list (xs_place.here) (text "push") eight at []
    ≡ ok ((Value.void, pushed), [])
unfolding mutate text_eq list_push
xs_pushed = refl

list_env-IsValid : IsValid (list_env.env)
unfolding contains_key
list_env-IsValid =
    IsValid.valid ((text "xs", Value.list (cons (Value.int (pos 7)) nil)) ∷ []) [] [] (refl, tt) tt
      tt

eight_evaluated : pure {A = Values} eight list_env ≡ ok (Flow.value eight, list_env)
unfolding pure
eight_evaluated = refl

method_on_place-writes_example :
    (t : State (List Text)) × (method_on_place host program calls xs_path
        (text "push")
        210
        at
        (pure eight)
        list_env
      ≡ ok (Flow.value Value.void, t))
    × (t.world ≡ [])
    × IsValid t.env
    × (resolve_captured_place xs_path t.env program false
        ≡ ok (record { here = pushed; put = λ w. w }))
    × ((j : Text)
        → text_eq (text "xs") j ≡ false
        → try_lookup j t.env ≡ try_lookup j (list_env.env))
method_on_place-writes_example =
    method_on_place-writes host program calls xs_path (text "push") 210 at (pure eight) list_env
      list_env Mutation.list eight xs_place xs_place Value.void pushed [] xs_found xs_push
      eight_evaluated xs_pushed list_env-IsValid xs_found

abbrev x_param : List LambdaParam
x_param = record { name = text "x"; ty = none; span = at } ∷ []

abbrev add_body : Expr
add_body = expr 211 (binary add (var (text "x")) (var (text "xs"))) at

lambda-captures_example :
    (held : Captured) × (eval_expr host program calls
        (expr 212 (lambda x_param add_body) at)
        list_env
      ≡ ok (
        Flow.value (
            Value.closure
              (CallTarget.lambda
                (record { params = clone_params x_param; body = clone_expr add_body }))
              held),
        list_env,
      ))
    × ((args : Values) (j : Text)
        → is_param j x_param ≡ false
        → try_lookup j (
            with_frame (
              lambda_scope
                (record { params = clone_params x_param; body = clone_expr add_body })
                held
                args))
          ≡ try_lookup j (list_env.env))
lambda-captures_example =
    lambda-captures host program calls 212 x_param add_body at list_env list_env-IsValid

-- A return, and an assignment behind it.
abbrev dead : Stmts
dead =
    cons_stmt (stmt (return_value (num 1)) at)
      (cons_stmt (stmt (name_assign (text "x") none (num 2)) at) no_stmts)

unreachable_in-spans_example :
    (spans (unreachable_in dead) ≡ over (span_behind dead) (size dead))
    × Unreachable (unreachable_in dead)
    × ((i : ℕ) (block_at : Span) (s : State (List Text))
        → returns_at dead i ≡ true
        → eval_block host program calls (block (up_to i dead) block_at) s
          ≡ eval_block host program calls (block dead block_at) s)
unreachable_in-spans_example = unreachable_in-spans host program calls dead

-- The lint reports the assignment.
dead_reported : length (unreachable_in dead) ≡ 1
unfolding unreachable_in
dead_reported = refl
