-- ===== src/Eval/Flow/Keeps/Rules.antt =====
-- The rules of `Keeps`: one for each way to make a step.
use yabumi.Common.{Bool, true, false, List, [], ◌∷◌, ◌≡◌, refl, if◌then◌else◌, subst, sym, ◌∙◌, ap}
use yabumi.Eval.Env.{Environment, push_scope, pop_scope, Scope, Frame}
use yabumi.Eval.Env.Laws.{IsValid}
use yabumi.Eval.Flow.{
  in_scope, close_scope, continue, called, updated, closed, Flow, State, Eval, pure, leave, lift,
  asks, does, update, scoped, ◌>>=◌,
}
use yabumi.Eval.Flow.Keeps.{Keeps, GrownFrames, Grown, Grown-refl, Grown-trans, Grows}
use yabumi.Eval.Host.{Call}
use yabumi.Eval.Panic.{Outcome, ok, abort, unreachable}
use yabumi.Eval.Value.{Value}

env_of : {a b : Environment} → ok a ≡ ok b → a ≡ b
env_of h = cc

-- What a scope that is opened and closed hides: the body's names over those of the environment.
pushed-IsValid : (env inner : Environment) → IsValid env → push_scope env ≡ ok inner → IsValid inner
unfolding push_scope
pushed-IsValid _ inner (IsValid.valid s ss fs d ds df) h =
    subst IsValid (env_of h) (IsValid.valid [] (s ∷ ss) fs tt (d, ds) df)

popped_at :
    (s : Scope) (ss : List Scope) (fs : List Frame) (after e : Environment)
    → IsValid after
    → GrownFrames (record { scopes = [] ∷ s ∷ ss } ∷ fs) after.frames
    → pop_scope after ≡ ok e
    → Grown (record { frames = record { scopes = s ∷ ss } ∷ fs }) e
unfolding pop_scope
popped_at s ss fs _ e (IsValid.valid s' [] fs' d ds df) g h = elim (g.0.1) [ ]
popped_at s ss fs _ e (IsValid.valid s' (t ∷ ts) fs' d ds df) g h =
    subst (Grown _) (env_of h) (record {
      still_valid = IsValid.valid t ts fs' ds.0 ds.1 df;
      grown = ((λ j there. sym (g.0.1.0 j) ∙ there, g.0.1.1), g.1);
    })

popped-Grown :
    (env inner after e : Environment)
    → IsValid env
    → push_scope env ≡ ok inner
    → Grown inner after
    → pop_scope after ≡ ok e
    → Grown env e
unfolding push_scope
popped-Grown _ inner after e (IsValid.valid s ss fs d ds df) pushed g h =
    popped_at s ss fs after e g.still_valid
      (subst (λ (i : Environment). GrownFrames i.frames after.frames) (sym (env_of pushed)) g.grown)
      h

module _ {W A : Type 0} where
  state_of :
      (r r' : Flow A) (s t : State W)
      → ◌≡◌ {A = Outcome (Flow A × State W)} (ok (r, s)) (ok (r', t))
      → s ≡ t
  state_of r r' s t h = cc

  -- A step that leaves the state as it is.
  unmoved :
      (s t : State W) (r r' : Flow A)
      → IsValid s.env
      → ◌≡◌ {A = Outcome (Flow A × State W)} (ok (r, s)) (ok (r', t))
      → Grown s.env t.env
  unmoved s t r r' v h = rw (← state_of r r' s t h) (Grown-refl s.env v)

  pub Keeps-pure : (a : A) → Keeps {W = W} (pure a)
  unfolding pure
  Keeps-pure a = record { at = λ s t r v h. unmoved s t _ r v h }

  pub Keeps-leave : (v : Value) → Keeps {W = W} {A = A} (leave v)
  unfolding leave
  Keeps-leave v = record { at = λ s t r ok_env h. unmoved s t _ r ok_env h }

  pub Keeps-lift : (out : Outcome A) → Keeps {W = W} (lift out)
  unfolding lift
  Keeps-lift (ok a) = record { at = λ s t r v h. unmoved s t _ r v h }
  Keeps-lift (abort e) = record { at = λ s t r v h. cc }
  Keeps-lift unreachable = record { at = λ s t r v h. cc }

  pub Keeps-asks : (f : Environment → Outcome A) → Keeps {W = W} (asks f)
  unfolding asks lift
  Keeps-asks f = record { at = λ s t r v h. (Keeps-lift (f s.env)).at s t r v h }

  called-Grown :
      (out : Outcome (A × W)) (env : Environment) (t : State W) (r : Flow A)
      → IsValid env
      → called out env ≡ ok (r, t)
      → Grown env t.env
  called-Grown (ok (a, w)) env t r v h = unmoved (record { env = env; world = w }) t _ r v h
  called-Grown (abort fault) env t r v h = cc
  called-Grown unreachable env t r v h = cc

  pub Keeps-does : (c : Call W A) → Keeps (does c)
  unfolding does
  Keeps-does c = record { at = λ s t r v h. called-Grown (c s.world) s.env t r v h }

  pub Keeps-if : (b : Bool) (m n : Eval W A) → Keeps m → Keeps n → Keeps (if b then m else n)
  Keeps-if true m n km kn = km
  Keeps-if false m n km kn = kn

  closed-env :
      (q r : Flow A) (w : W) (out : Outcome Environment) (u : State W)
      → closed q w out ≡ ok (r, u)
      → out ≡ ok u.env
  closed-env q r w (ok e) u h = ap ok (ap (λ (x : State W). x.env) (state_of q r _ u h))
  closed-env q r w (abort fault) u h = cc
  closed-env q r w unreachable u h = cc

  close_scope-Grown :
      (env inner : Environment) (out : Outcome (Flow A × State W)) (r : Flow A) (u : State W)
      → IsValid env
      → push_scope env ≡ ok inner
      → ((q : Flow A) (t : State W) → out ≡ ok (q, t) → Grown inner t.env)
      → close_scope out ≡ ok (r, u)
      → Grown env u.env
  close_scope-Grown env inner (ok (q, t)) r u v pushed g h =
      popped-Grown env inner t.env u.env v pushed (g q t refl)
        (closed-env q r t.world (pop_scope t.env) u h)
  close_scope-Grown env inner (abort fault) r u v pushed g h = cc
  close_scope-Grown env inner unreachable r u v pushed g h = cc

  in_scope-Grown :
      (m : Eval W A) (env : Environment) (out : Outcome Environment) (w : W) (r : Flow A)
      (u : State W)
      → IsValid env
      → push_scope env ≡ out
      → Keeps m
      → in_scope m out w ≡ ok (r, u)
      → Grown env u.env
  in_scope-Grown m env (ok e) w r u v pushed km h =
      close_scope-Grown env e (m (record { env = e; world = w })) r u v pushed
        (λ q t. km.at (record { env = e; world = w }) t q (pushed-IsValid env e v pushed)) h
  in_scope-Grown m env (abort fault) w r u v pushed km h = cc
  in_scope-Grown m env unreachable w r u v pushed km h = cc

  pub Keeps-scoped : (m : Eval W A) → Keeps m → Keeps (scoped m)
  unfolding scoped
  Keeps-scoped m km = record {
    at = λ s u r v h. in_scope-Grown m s.env (push_scope s.env) s.world r u v refl km h;
  }

module _ {W : Type 0} where
  updated-Grown :
      (env : Environment) (out : Outcome Environment) (w : W) (t : State W) (r : Flow (Unit {0}))
      → ((after : Environment) → out ≡ ok after → Grown env after)
      → updated out w ≡ ok (r, t)
      → Grown env t.env
  updated-Grown env (ok e) w t r g h =
      rw (← state_of _ r (record { env = e; world = w }) t h) (g e refl)
  updated-Grown env (abort fault) w t r g h = cc
  updated-Grown env unreachable w t r g h = cc

  pub Keeps-update : (f : Environment → Outcome Environment) → Grows f → Keeps {W = W} (update f)
  unfolding update
  Keeps-update f g = record {
    at = λ s t r v h. updated-Grown s.env (f s.env) s.world t r (λ after. g s.env after v) h;
  }

module _ {W A B : Type 0} where
  continue-Grown :
      (env : Environment) (out : Outcome (Flow A × State W)) (next : A → Eval W B) (t : State W)
      (r : Flow B)
      → ((q : Flow A) (u : State W) → out ≡ ok (q, u) → Grown env u.env)
      → ((a : A) → Keeps (next a))
      → continue out next ≡ ok (r, t)
      → Grown env t.env
  continue-Grown env (ok (Flow.value a, u)) next t r g k h =
      let first = g (Flow.value a) u refl in
      Grown-trans env u.env t.env first ((k a).at u t r first.still_valid h)
  continue-Grown env (ok (Flow.return v, u)) next t r g k h =
      rw (← state_of _ r u t h) (g (Flow.return v) u refl)
  continue-Grown env (abort fault) next t r g k h = cc
  continue-Grown env unreachable next t r g k h = cc

  pub Keeps-bind :
      (m : Eval W A) (next : A → Eval W B)
      → Keeps m
      → ((a : A) → Keeps (next a))
      → Keeps (m >>= next)
  unfolding ◌>>=◌
  Keeps-bind m next km k = record {
    at = λ s t r v h. continue-Grown s.env (m s) next t r (λ q u. km.at s u q v) k h;
  }

  -- The same rule, written as the chain is.
  infixl 5 ◌⟫◌
  pub ◌⟫◌ :
      {m : Eval W A} {next : A → Eval W B}
      → Keeps m
      → ((a : A) → Keeps (next a))
      → Keeps (m >>= next)
  ◌⟫◌ {m} {next} km k = Keeps-bind m next km k
