-- ===== src/Eval/Expr/Contract.antt =====
-- The calls of functions and of methods, as the evaluator's parts make them together: a pipe into a
-- function is the call of it, a lambda sees what was visible where it was made, and a method that changes
-- its receiver writes it back.
use yabumi.Common.{◌≡◌, refl, some, none, false, Text, text_eq}
use yabumi.Common.TextMap.{get}
use yabumi.Ast.Decl.{FunctionDecl}
use yabumi.Ast.Expr.{Expr, expr, call, ident, pipe, cons_stage, no_stages, bare, cons_arg, no_args}
use yabumi.Ast.Pattern.{NodeId}
use yabumi.Ast.TypeAnn.{TypeAnns}
use yabumi.Diagnostics.Position.{Span}
use yabumi.Types.Resolutions.{function_call}
use yabumi.Eval.Call.{Calls, call_named}
use yabumi.Eval.Call.Builtin.{is_flat_builtin}
use yabumi.Eval.Env.{Environment, try_lookup}
use yabumi.Eval.Expr.{eval_expr}
use yabumi.Eval.Flow.{update, called, continue, Flow, State, Eval, ◌>>=◌, pure, lift, does, asks}
use yabumi.Eval.Host.{Host}
use yabumi.Eval.Panic.{Outcome, ok, abort, unreachable}
use yabumi.Eval.Program.{Program}
use yabumi.Eval.Steps.{method_on_place, finish_method}
use yabumi.Eval.Call.Mutation.{Mutation, classify_mutation, mutate}
use yabumi.Eval.Lvalue.{PlacePath, Place, resolve_captured_place}
use yabumi.Eval.Lvalue.Contract.{assign_place-found}
use yabumi.Eval.Env.Laws.{IsValid}
use yabumi.Eval.Value.{Values, Value, cons, nil}

-- A stage with no `?` behind it ends the pipe with its value.
finish :
    {W : Type 0} (out : Outcome (Value × W)) (env : Environment)
    → continue (called out env) (λ staged. pure staged >>= λ v. pure v) ≡ called out env
unfolding pure ◌>>=◌
finish (ok (v, w)) env = refl
finish (abort fault) env = refl
finish unreachable env = refl

module _ (host : Host) (program : Program) (calls : Calls (host.World)) where
  pipe_call_on :
      (source : Expr) (f : Text) (decl : FunctionDecl) (pipe_id stage_id id callee_id : NodeId)
      (pipe_at stage_at f_at at callee_at : Span) (s : State (host.World))
      (out : Outcome (Flow Value × State (host.World)))
      → eval_expr host program calls source s ≡ out
      → is_flat_builtin f ≡ false
      → get f program.functions ≡ some decl
      → program.resolutions.call_kind id ≡ some function_call
      → ((v : Value) (t : State (host.World))
          → eval_expr host program calls source s ≡ ok (Flow.value v, t)
          → try_lookup f t.env ≡ ok none)
      → eval_expr host program calls
          (expr pipe_id
            (pipe source
              (cons_stage (bare (expr stage_id (ident f) f_at)) false stage_at no_stages))
            pipe_at)
          s
        ≡ eval_expr host program calls
            (expr id
              (call
                (expr callee_id (ident f) callee_at)
                TypeAnns.none
                (cons_arg none source false no_args))
              at)
            s
  unfolding eval_expr call_named ◌>>=◌ pure lift does asks
  pipe_call_on source f decl pipe_id stage_id id callee_id pipe_at stage_at f_at at callee_at s
        (ok (Flow.value v, t)) e plain there kind unseen =
      rw (kind, there, e, plain, unseen v t e)
        (rw (there, call_named) (finish (calls.function decl (cons v nil) t.world) t.env))
  pipe_call_on source f decl pipe_id stage_id id callee_id pipe_at stage_at f_at at callee_at s
        (ok (Flow.return v, t)) e plain there kind unseen =
      rw (kind, there, e)
  pipe_call_on source f decl pipe_id stage_id id callee_id pipe_at stage_at f_at at callee_at s
        (abort fault) e plain there kind unseen =
      rw (kind, there, e)
  pipe_call_on source f decl pipe_id stage_id id callee_id pipe_at stage_at f_at at callee_at s
        unreachable e plain there kind unseen =
      rw (kind, there, e)

  -- `x |> f` evaluates as `f(x)`, where the checker has seen `f` to be a declared function, and no local
  -- variable and no builtin function has the name: both give the same value, early return or abort and
  -- lead to the same state.
  pub pipe-call :
      (source : Expr) (f : Text) (decl : FunctionDecl) (pipe_id stage_id id callee_id : NodeId)
      (pipe_at stage_at f_at at callee_at : Span) (s : State (host.World))
      → is_flat_builtin f ≡ false
      → get f program.functions ≡ some decl
      → program.resolutions.call_kind id ≡ some function_call
      → ((v : Value) (t : State (host.World))
          → eval_expr host program calls source s ≡ ok (Flow.value v, t)
          → try_lookup f t.env ≡ ok none)
      → eval_expr host program calls
          (expr pipe_id
            (pipe source
              (cons_stage (bare (expr stage_id (ident f) f_at)) false stage_at no_stages))
            pipe_at)
          s
        ≡ eval_expr host program calls
            (expr id
              (call
                (expr callee_id (ident f) callee_at)
                TypeAnns.none
                (cons_arg none source false no_args))
              at)
            s
  pipe-call source f decl pipe_id stage_id id callee_id pipe_at stage_at f_at at callee_at s =
      pipe_call_on source f decl pipe_id stage_id id callee_id pipe_at stage_at f_at at callee_at s
        (eval_expr host program calls source s) refl

  -- A method that changes its receiver in place, on a place that resolves before the arguments are
  -- evaluated and behind them: it gives the method's result; the place holds the receiver that the method
  -- left, made of the one before the arguments; the environment is valid, and every other variable is as
  -- the arguments left it.
  pub method_on_place-writes :
      (path : PlacePath) (method : Text) (receiver : NodeId) (at : Span)
      (args : Eval (host.World) Values) (s u : State (host.World)) (m : Mutation) (vs : Values)
      (before behind : Place) (result self : Value) (w : host.World)
      → resolve_captured_place path s.env program false ≡ ok before
      → classify_mutation program before.here method ≡ some m
      → args s ≡ ok (Flow.value vs, u)
      → mutate host calls m before.here method vs at u.world ≡ ok ((result, self), w)
      → IsValid u.env
      → resolve_captured_place path u.env program false ≡ ok behind
      → (t : State (host.World)) × (method_on_place host program calls path method receiver at args
            s
          ≡ ok (Flow.value result, t))
        × (t.world ≡ w)
        × IsValid t.env
        × (resolve_captured_place path t.env program false
            ≡ ok (record { here = self; put = behind.put }))
        × ((j : Text) → text_eq path.root j ≡ false → try_lookup j t.env ≡ try_lookup j u.env)
  unfolding method_on_place finish_method asks does update pure ◌>>=◌
  method_on_place-writes path method receiver at args s u m vs before behind result self w resolved
        kind evaluated mutated valid_u resolved_u =
      let (after, assigned, valid_after, there, rest) =
        assign_place-found path self u.env program false valid_u resolved_u in
      (
        record { env = after; world = w },
        rw (resolved, kind, evaluated, mutated, assigned) refl,
        refl,
        valid_after,
        there,
        rest,
      )
