-- ===== src/Eval/Flow.antt =====
-- src/eval/mod.rs: `Flow`, and the chain of steps that `eval_val!` makes: a step that returns early or
-- aborts ends the chain.
pub mod Keeps
use yabumi.Common.{◌≡◌, Text}
use yabumi.Eval.Env.{Environment, push_scope, pop_scope}
use yabumi.Eval.Host.{Call}
use yabumi.Eval.Panic.{Outcome, ok, abort, unreachable}
use yabumi.Eval.Value.{Value}

-- `Flow::Return` carries the value of an early `return` or `?`. A step that gives something other than
-- a value (a list of arguments, a captured place) has its own `A`.
pub data Flow (A : Type 0) : Type 0 where
  value : A → Flow A
  return : Value → Flow A

pub record State (W : Type 0) : Type 0 where
  pub env : Environment
  pub world : W

-- `EvalResult`, as a function of what it changes. An abort ends the run of the program or of a worker
-- thread, and nothing reads the environment behind it.
abbrev pub Eval : Type 0 → Type 0 → Type 0
Eval W A = State W → Outcome (Flow A × State W)

module _ {W A : Type 0} where
  unfoldable pub pure : A → Eval W A
  pure a s = ok (value a, s)

  -- `return Ok(Flow::Return(v))`
  unfoldable pub leave : Value → Eval W A
  leave v s = ok (return v, s)

  abbrev pub lifted : Outcome A → State W → Outcome (Flow A × State W)
  lifted (ok a) s = ok (value a, s)
  lifted (abort e) s = abort e
  lifted unreachable s = unreachable

  -- A step that only may abort, and one that only reads the environment.
  unfoldable pub lift : Outcome A → Eval W A
  lift r s = lifted r s

  unfoldable pub asks : (Environment → Outcome A) → Eval W A
  asks f s = lifted (f s.env) s

  abbrev pub called : Outcome (A × W) → Environment → Outcome (Flow A × State W)
  called (ok (a, w)) e = ok (value a, record { env = e; world = w })
  called (abort fault) e = abort fault
  called unreachable e = unreachable

  -- A step that sees the world alone.
  unfoldable pub does : Call W A → Eval W A
  does c s = called (c s.world) s.env

  abbrev pub closed : Flow A → W → Outcome Environment → Outcome (Flow A × State W)
  closed r w (ok e) = ok (r, record { env = e; world = w })
  closed r w (abort fault) = abort fault
  closed r w unreachable = unreachable

  abbrev pub close_scope : Outcome (Flow A × State W) → Outcome (Flow A × State W)
  close_scope (ok (r, t)) = closed r t.world (pop_scope t.env)
  close_scope (abort fault) = abort fault
  close_scope unreachable = unreachable

  abbrev pub in_scope : Eval W A → Outcome Environment → W → Outcome (Flow A × State W)
  in_scope m (ok e) w = close_scope (m (record { env = e; world = w }))
  in_scope m (abort fault) w = abort fault
  in_scope m unreachable w = unreachable

  -- `env.push_scope(); let r = ...; env.pop_scope(); r`
  unfoldable pub scoped : Eval W A → Eval W A
  scoped m s = in_scope m (push_scope s.env) s.world

module _ {W : Type 0} where
  abbrev pub updated : Outcome Environment → W → Outcome (Flow (Unit {0}) × State W)
  updated (ok e) w = ok (value tt, record { env = e; world = w })
  updated (abort fault) w = abort fault
  updated unreachable w = unreachable

  -- A write to the environment.
  unfoldable pub update : (Environment → Outcome Environment) → Eval W (Unit {0})
  update f s = updated (f s.env) s.world

module _ {W A B : Type 0} where
  abbrev pub continue : Outcome (Flow A × State W) → (A → Eval W B) → Outcome (Flow B × State W)
  continue (ok (value a, s)) next = next a s
  continue (ok (return v, s)) next = ok (return v, s)
  continue (abort fault) next = abort fault
  continue unreachable next = unreachable

  infixl 5 ◌>>=◌
  unfoldable pub ◌>>=◌ : Eval W A → (A → Eval W B) → Eval W B
  ◌>>=◌ m next s = continue (m s) next

  -- Chains of equal steps are equal.
  infixl 5 ◌>>≡◌
  pub ◌>>≡◌ :
      {m m' : Eval W A} {next next' : A → Eval W B}
      → m ≡ m'
      → ((a : A) → next a ≡ next' a)
      → (m >>= next) ≡ (m' >>= next')
  ◌>>≡◌ p q = λ i. p i >>= λ a. q a i
