-- ===== src/Eval/Run.antt =====
-- src/eval/mod.rs and the calls of src/eval/call.rs: the bodies of functions and lambdas, the ceiling on
-- the depth of calls, and the run of the top-level statements. Every call is one level below its
-- caller, so the evaluation needs no fuel: `left` is MAX_CALL_DEPTH less the depth. A worker thread
-- counts from zero again; `threads` is how many of them may nest before the system refuses one.
pub mod Laws
use yabumi.Common.{text_eq, if◌then◌else◌, ℕ, zero, suc, List, [], ◌∷◌, Text, text}
use yabumi.Common.TextMap.{insert}
use yabumi.Ast.Decl.{Item, FunctionDecl}
use yabumi.Ast.Expr.{Expr, Stmt, stmt}
use yabumi.Ast.TypeAnn.{TypeAnn, TypeAnnKind}
use yabumi.Diagnostics.Position.{Span}
use yabumi.Eval.Call.{declared, Calls, bind_params, lambda_scope}
use yabumi.Eval.Env.{Environment, Scope, with_frame, lookup_mut}
use yabumi.Eval.Expr.{eval_expr, eval_block, eval_stmt}
use yabumi.Eval.Flow.{Flow, State}
use yabumi.Eval.Host.{Host, Call}
use yabumi.Eval.Panic.{
  Abort, Outcome, ok, abort, unreachable, ◌>>=◌, stack_overflow, toplevel_err_propagation,
  toplevel_none_propagation,
}
use yabumi.Eval.Program.{Program}
use yabumi.Eval.Steps.{span_of}
use yabumi.Eval.Value.{nth, Value, Values, nil, cons, Captured, LambdaBody}

abbrev pub max_call_depth : ℕ
max_call_depth = 3000

-- The result of a body: a `void` function drops the value of its last statement.
unfoldable pub body_result : TypeAnn → Flow Value → Value
body_result ret (Flow.return v) = v
body_result (TypeAnn.type_ann TypeAnnKind.void at) (Flow.value v) = Value.void
body_result ret (Flow.value v) = v

-- `error_message_of`: the message of an `Error`, or the `Debug` of another payload.
abbrev error_message_of : Host → Value → Text
error_message_of host (Value.struct type_name (cons kind (cons (Value.str message) rest))) =
    if text_eq type_name (text "Error")
    then message
    else host.debug_text (Value.struct type_name (cons kind (cons (Value.str message) rest)))
error_message_of host v = host.debug_text v

-- An early return that reaches the top level is an `Err` or a `None` behind `?`.
unfoldable pub toplevel_propagation_abort : Host → Span → Value → Outcome Abort
toplevel_propagation_abort host at (Value.enum type_name i variant fields) =
    if text_eq variant (text "Err")
    then (declared (nth fields 0) >>= λ v.
        ok (toplevel_err_propagation at (error_message_of host v)))
    else if text_eq variant (text "None")
    then ok (toplevel_none_propagation at)
    else unreachable
toplevel_propagation_abort host at _ = unreachable

-- Of a lambda either is the result.
abbrev pub either : Flow Value → Value
either (Flow.return v) = v
either (Flow.value v) = v

abbrev pub start : {W : Type 0} → Scope → W → State W
start scope w = record { env = with_frame scope; world = w }

abbrev pub flow_of : {W : Type 0} → Outcome (Flow Value × State W) → Outcome (Flow Value × W)
flow_of (ok (flow, s)) = ok (flow, s.world)
flow_of (abort fault) = abort fault
flow_of unreachable = unreachable

module _ (host : Host) (program : Program) where
  module _ (calls : Calls (host.World)) where
    unfoldable pub run_body_with_env :
        FunctionDecl → Scope → Call (host.World) (Value × Environment)
    run_body_with_env decl scope w =
        eval_block host program calls decl.body (start scope w) >>= λ (flow, s).
        ok ((body_result decl.ret flow, s.env), s.world)

    unfoldable pub call_function : FunctionDecl → Values → Call (host.World) Value
    unfolding run_body_with_env
    call_function decl args w =
        run_body_with_env decl (bind_params decl args) w >>= λ ((result, env), w'). ok (result, w')

    -- `self` is bound over the parameters, and read back behind the body.
    unfoldable pub call_method_with_self :
        FunctionDecl → Value → Values → Call (host.World) (Value × Value)
    unfolding run_body_with_env
    call_method_with_self decl self args w =
        run_body_with_env decl (insert (text "self") self (bind_params decl args)) w
        >>= λ ((result, env), w').
            lookup_mut (text "self") env >>= λ final_self. ok ((result, final_self), w')

    unfoldable pub call_lambda : LambdaBody → Captured → Values → Call (host.World) Value
    call_lambda body held args w =
        eval_expr host program calls body.body (start (lambda_scope body held args) w)
        >>= λ (flow, s). ok (either flow, s.world)

  -- `enter_call`: with no level left, a call aborts at the span of what it calls.
  unfoldable pub calls_within :
      (Expr → Environment → Call (host.World) (Flow Value)) → ℕ → Calls (host.World)
  unfolding call_function call_method_with_self call_lambda
  calls_within worker zero = record {
    function = λ decl args w. abort (stack_overflow decl.span);
    method = λ decl self args w. abort (stack_overflow decl.span);
    lambda = λ body held args w. abort (stack_overflow (span_of body.body));
    worker = worker;
  }
  calls_within worker (suc left) =
      let below = calls_within worker left in
      record {
        function = call_function below;
        method = call_method_with_self below;
        lambda = call_lambda below;
        worker = worker;
      }

  -- A branch on a thread of its own; the failed `expect` of a thread that the system refuses.
  unfoldable pub worker_within : ℕ → Expr → Environment → Call (host.World) (Flow Value)
  unfolding calls_within
  worker_within zero e env w = unreachable
  worker_within (suc threads) e env w = flow_of (
      eval_expr host program (calls_within (worker_within threads) max_call_depth) e
        (record { env = env; world = w }))

  -- What the main thread's top level calls.
  unfoldable pub main_calls : ℕ → Calls (host.World)
  unfolding calls_within worker_within
  main_calls threads = calls_within (worker_within threads) max_call_depth

  abbrev pub next_item :
      Flow Value → Span → Outcome (State (host.World)) → Outcome (State (host.World))
  next_item (Flow.value v) at rest = rest
  next_item (Flow.return payload) at rest =
      toplevel_propagation_abort host at payload >>= λ fault. abort fault

  -- The statements of the entry file in order; declarations are passed over.
  unfoldable pub run_top_level :
      Calls (host.World) → List Item → State (host.World) → Outcome (State (host.World))
  unfolding toplevel_propagation_abort
  run_top_level calls [] s = ok s
  run_top_level calls (Item.decl d ∷ items) s = run_top_level calls items s
  run_top_level calls (Item.statement (stmt kind at) ∷ items) s =
      eval_stmt host program calls (stmt kind at) s >>= λ (flow, t).
      next_item flow at (run_top_level calls items t)
