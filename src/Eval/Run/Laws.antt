-- ===== src/Eval/Run/Laws.antt =====
-- What holds of the evaluation at every depth of calls.
use mathlib.Core.Path.{fun_ext}
use yabumi.Common.{ℕ, zero, suc, ◌≡◌, refl, ap, some, List, [], ◌∷◌, Text}
use yabumi.Common.TextMap.{get}
use yabumi.Ast.Decl.{FunctionDecl, Item}
use yabumi.Types.Resolutions.{function_call}
use yabumi.Ast.Pattern.{NodeId}
use yabumi.Ast.TypeAnn.{TypeAnns}
use yabumi.Diagnostics.Position.{Span}
use yabumi.Ast.Expr.{
  block, cons_stmt, no_stmts, return_value, call, ident, Expr, expr, stmt, no_args,
}
use yabumi.Eval.Call.{Calls}
use yabumi.Eval.Clone.{clone_expr}
use yabumi.Eval.Env.{Environment}
use yabumi.Eval.Env.Laws.{IsValid}
use yabumi.Eval.Expr.{eval_expr, eval_stmt}
use yabumi.Eval.Expr.Copy.{eval_expr-clone_expr}
use yabumi.Eval.Expr.Keeps.{eval_stmt-Grown}
use yabumi.Eval.Flow.{Flow, State, ◌>>=◌, pure, lift, does, leave}
use yabumi.Eval.Flow.Keeps.{GrownFrames, Grown, Grown-refl, Grown-trans}
use yabumi.Eval.Host.{Host, Call}
use yabumi.Eval.Panic.{>>=-eq-ok, Abort, Outcome, ok, abort, stack_overflow}
use yabumi.Eval.Program.{Program}
use yabumi.Eval.Run.{
  next_item, toplevel_propagation_abort, calls_within, worker_within, flow_of, call_function,
  run_top_level, max_call_depth,
}
use yabumi.Eval.Value.{nil, Values, Value}

same_state : {W : Type 0} (s t : State W) → ok s ≡ ok t → s ≡ t
same_state s t h = cc

module _ (host : Host) (program : Program) where
  calls_within-worker :
      (worker : Expr → Environment → Call (host.World) (Flow Value)) (left : ℕ)
      → (calls_within host program worker left).worker ≡ worker
  unfolding calls_within
  calls_within-worker worker zero = refl
  calls_within-worker worker (suc left) = refl

  copied_within :
      (worker : Expr → Environment → Call (host.World) (Flow Value)) (left : ℕ)
      → ((e : Expr) → worker (clone_expr e) ≡ worker e)
      → (e : Expr)
      → eval_expr host program (calls_within host program worker left) (clone_expr e)
        ≡ eval_expr host program (calls_within host program worker left) e
  copied_within worker left same =
      eval_expr-clone_expr host program (calls_within host program worker left)
        (λ e. rw (calls_within-worker worker left) (same e))

  worker-clone :
      (threads : ℕ) (e : Expr)
      → worker_within host program threads (clone_expr e) ≡ worker_within host program threads e
  unfolding worker_within
  worker-clone zero e = refl
  worker-clone (suc threads) e = fun_ext λ env. fun_ext λ w.
      ap (λ m. flow_of (m (record { env = env; world = w })))
        (copied_within (worker_within host program threads) max_call_depth (worker-clone threads) e)

  -- A lambda's copy of its body evaluates as the body, at every depth of calls and of threads: in every
  -- state it gives the same value, early return or abort and leads to the same state.
  pub eval_expr-clone :
      (threads left : ℕ) (e : Expr) (s : State (host.World))
      → eval_expr host program
          (calls_within host program (worker_within host program threads) left)
          (clone_expr e)
          s
        ≡ eval_expr host program
            (calls_within host program (worker_within host program threads) left)
            e
            s
  eval_expr-clone threads left e s =
      ap (λ m. m s)
        (copied_within (worker_within host program threads) left (worker-clone threads) e)

  next_item-ok :
      (flow : Flow Value) (at : Span) (rest : Outcome (State (host.World))) (t : State (host.World))
      → next_item host program flow at rest ≡ ok t
      → rest ≡ ok t
  next_item-ok (Flow.value v) at rest t h = h
  next_item-ok (Flow.return payload) at rest t h =
      let (fault, e, fails) = >>=-eq-ok (toplevel_propagation_abort host at payload) _ h in cc

  run-Grown :
      (calls : Calls (host.World)) (items : List Item) (s t : State (host.World))
      → IsValid s.env
      → run_top_level host program calls items s ≡ ok t
      → Grown s.env t.env
  unfolding run_top_level
  run-Grown calls [] s t v h = rw (← same_state s t h) (Grown-refl s.env v)
  run-Grown calls (Item.decl d ∷ items) s t v h = run-Grown calls items s t v h
  run-Grown calls (Item.statement (stmt kind at) ∷ items) s t v h =
      let ((flow, u), e, rest) = >>=-eq-ok (eval_stmt host program calls (stmt kind at) s) _ h in
      let (valid_u, grown) = eval_stmt-Grown host program calls (stmt kind at) s u flow v e in
      Grown-trans s.env u.env t.env (record { still_valid = valid_u; grown = grown })
        (run-Grown calls items u t valid_u
          (next_item-ok flow at (run_top_level host program calls items u) t rest))

  -- From a valid environment, the top-level statements that are run to their end leave a valid
  -- environment with the same frames below the current one and the same number of scopes, whose outer
  -- scopes have the names they had, and whose innermost scope has at least these.
  pub run_top_level-Grown :
      (calls : Calls (host.World)) (items : List Item) (s t : State (host.World))
      → IsValid s.env
      → run_top_level host program calls items s ≡ ok t
      → IsValid t.env × GrownFrames s.env.frames t.env.frames
  run_top_level-Grown calls items s t v h =
      let out = run-Grown calls items s t v h in (out.still_valid, out.grown)

  self_call-abort :
      (calls : Calls (host.World)) (decl : FunctionDecl) (name : Text) (id callee : NodeId)
      (at call_at return_at body_at : Span) (args : Values) (w : host.World) (fault : Abort)
      → decl.body
        ≡ block
            (cons_stmt
              (stmt
                (return_value
                  (expr id (call (expr callee (ident name) at) TypeAnns.none no_args) call_at))
                return_at)
              no_stmts)
            body_at
      → get name program.functions ≡ some decl
      → program.resolutions.call_kind id ≡ some function_call
      → calls.function decl nil w ≡ abort fault
      → call_function host program calls decl args w ≡ abort fault
  unfolding call_function eval_expr ◌>>=◌ lift does leave pure
  self_call-abort calls decl name id callee at call_at return_at body_at args w fault body there
        kind fails =
      rw (body, kind, there, fails)

  -- A function whose body is `return f()`, a call of itself, aborts with a stack overflow at its own span,
  -- whatever depth is left and whatever its arguments.
  pub self_call-stack_overflow :
      (worker : Expr → Environment → Call (host.World) (Flow Value)) (left : ℕ)
      (decl : FunctionDecl) (name : Text) (id callee : NodeId) (at call_at return_at body_at : Span)
      (args : Values) (w : host.World)
      → decl.body
        ≡ block
            (cons_stmt
              (stmt
                (return_value
                  (expr id (call (expr callee (ident name) at) TypeAnns.none no_args) call_at))
                return_at)
              no_stmts)
            body_at
      → get name program.functions ≡ some decl
      → program.resolutions.call_kind id ≡ some function_call
      → (calls_within host program worker left).function decl args w
        ≡ abort (stack_overflow decl.span)
  unfolding calls_within
  self_call-stack_overflow worker zero decl name id callee at call_at return_at body_at args w body
        there kind =
      refl
  self_call-stack_overflow worker (suc left) decl name id callee at call_at return_at body_at args w
        body there kind =
      self_call-abort (calls_within host program worker left) decl name id callee at call_at
        return_at body_at args w (stack_overflow decl.span) body there kind
        (self_call-stack_overflow worker left decl name id callee at call_at return_at body_at nil w
          body there kind)
