-- ===== src/Eval/Expr/Capture.antt =====
-- A lambda captures by value: its body sees what was visible where the lambda was evaluated.
use yabumi.Common.{Bool, false, ◌||◌, ◌≡◌, refl, sym, ap, ◌∙◌, List, [], ◌∷◌, Text, text_eq, arith}
use yabumi.Common.TextMap.{get, insert, insert_all, get-insert}
use yabumi.Ast.Expr.{Expr, expr, lambda, LambdaParam}
use yabumi.Ast.Pattern.{NodeId}
use yabumi.Diagnostics.Position.{Span}
use yabumi.Eval.Call.{Calls, bind_names, captured_scope, captured_of, lambda_scope, lambda_names}
use yabumi.Eval.Clone.{clone_expr, clone_params}
use yabumi.Eval.Env.{
  Environment, Scope, with_frame, try_lookup, visible_bindings, snapshot_for_par, find_in,
}
use yabumi.Eval.Env.Laws.{IsValid, snapshot_for_par-lookup}
use yabumi.Eval.Expr.{eval_expr}
use yabumi.Eval.Flow.{Flow, State, asks}
use yabumi.Eval.Host.{Host}
use yabumi.Eval.Panic.{ok, >>=-eq-ok}
use yabumi.Eval.Program.{Program}
use yabumi.Eval.Steps.{lambda_value}
use yabumi.Eval.Value.{Value, Values, nil, cons, Captured, CallTarget}

-- The name is a parameter's.
abbrev pub is_param : Text → List LambdaParam → Bool
is_param j [] = false
is_param j (p ∷ ps) = text_eq p.name j || is_param j ps

captured_of-scope : (scope m : Scope) → captured_scope (captured_of scope) m ≡ insert_all scope m
unfolding captured_scope captured_of insert_all
captured_of-scope [] m = refl
captured_of-scope ((n, v) ∷ scope) m = captured_of-scope scope (insert n v m)

-- Parameters cover the names that they have, and no other.
get-bind_names :
    (ps : List LambdaParam) (vs : Values) (m : Scope) (j : Text)
    → is_param j ps ≡ false
    → get j (bind_names (lambda_names (clone_params ps)) vs m) ≡ get j m
unfolding bind_names clone_params
get-bind_names [] vs m j h = refl
get-bind_names (p ∷ ps) nil m j h = refl
get-bind_names (p ∷ ps) (cons v vs) m j h =
    ground (arith, get-bind_names ps vs (insert p.name v m) j, get-insert p.name j v m)

single_lookup : (m : Scope) (j : Text) → try_lookup j (with_frame m) ≡ ok (get j m)
unfolding try_lookup with_frame find_in
single_lookup m j = ground arith

env_of : {a b : Environment} → ok a ≡ ok b → a ≡ b
env_of h = cc

seen_in_call :
    (params : List LambdaParam) (args : Values) (scope : Scope) (snapshot : Environment) (j : Text)
    → ok (with_frame (insert_all scope [])) ≡ ok snapshot
    → is_param j params ≡ false
    → try_lookup j (
        with_frame (
          bind_names
            (lambda_names (clone_params params))
            args
            (captured_scope (captured_of scope) [])))
      ≡ try_lookup j snapshot
seen_in_call params args scope snapshot j made other =
    single_lookup _ j
    ∙ rw (captured_of-scope scope [], get-bind_names params args (insert_all scope []) j other)
        (sym (single_lookup (insert_all scope []) j) ∙ ap (try_lookup j) (env_of made))

module _ (host : Host) (program : Program) (calls : Calls (host.World)) where
  -- In a valid environment a lambda evaluates to a closure of a copy of its parameters and body and changes
  -- nothing; in a call of this closure, whenever it is made and whatever its arguments, every name but the
  -- parameters' is seen as it was seen where the lambda was evaluated.
  pub lambda-captures :
      (id : NodeId) (params : List LambdaParam) (body : Expr) (at : Span) (s : State (host.World))
      → IsValid s.env
      → (held : Captured) × (eval_expr host program calls (expr id (lambda params body) at) s
          ≡ ok (
            Flow.value (
                Value.closure
                  (CallTarget.lambda
                    (record { params = clone_params params; body = clone_expr body }))
                  held),
            s,
          ))
        × ((args : Values) (j : Text)
            → is_param j params ≡ false
            → try_lookup j (
                with_frame (
                  lambda_scope
                    (record { params = clone_params params; body = clone_expr body })
                    held
                    args))
              ≡ try_lookup j s.env)
  unfolding eval_expr asks lambda_value lambda_scope snapshot_for_par
  lambda-captures id params body at s ok_env =
      let (snapshot, taken, ok_snapshot, shown) = snapshot_for_par-lookup s.env ok_env in
      let (scope, visible, made) = >>=-eq-ok (visible_bindings s.env) _ taken in
      (
        captured_of scope,
        rw visible refl,
        λ args j other. seen_in_call params args scope snapshot j made other ∙ shown j,
      )
