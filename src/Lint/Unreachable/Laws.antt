-- ===== src/Lint/Unreachable/Laws.antt =====
-- What the lint reports, against the evaluation of the block.
use mathlib.Core.Path.{fun_ext}
use yabumi.Common.{
  ℕ, zero, suc, List, ◌∷◌, Option, some, none, if◌then◌else◌, ◌∙◌, ap₂, ◌++◌, [], Bool, true, false,
  ◌≡◌, refl, ap,
}
use yabumi.Ast.Expr.{
  StmtKind, block, Stmts, no_stmts, cons_stmt, Stmt, stmt, return_void, return_value,
}
use yabumi.Diagnostics.Codes.{unreachable_code}
use yabumi.Diagnostics.Diagnostic.{Diagnostic}
use yabumi.Diagnostics.Position.{Span}
use yabumi.Eval.Call.{Calls}
use yabumi.Eval.Expr.{eval_block, eval_stmts, eval_stmt, eval_expr}
use yabumi.Eval.Flow.{Eval, Flow, State, continue, leave, ◌>>=◌}
use yabumi.Eval.Host.{Host}
use yabumi.Eval.Panic.{Outcome, ok, abort, unreachable}
use yabumi.Eval.Program.{Program}
use yabumi.Eval.Value.{Value}
use yabumi.Lint.Unreachable.{next_of, unreachable_in, is_return}

-- A step that always leaves drops what is chained behind it.
leave-drops :
    {W A : Type 0} (out : Outcome (Flow A × State W)) (f : A → Value)
    (next next' : Value → Eval W Value)
    → continue (continue out (λ v. leave {A = Value} (f v))) next
      ≡ continue (continue out (λ v. leave (f v))) next'
unfolding leave
leave-drops (ok (Flow.value v, s)) f next next' = refl
leave-drops (ok (Flow.return v, s)) f next next' = refl
leave-drops (abort fault) f next next' = refl
leave-drops unreachable f next next' = refl

abbrev pub stmt_at : Stmts → ℕ → Option Stmt
stmt_at no_stmts i = none
stmt_at (cons_stmt s rest) zero = some s
stmt_at (cons_stmt s rest) (suc i) = stmt_at rest i

abbrev pub size : Stmts → ℕ
size no_stmts = 0
size (cons_stmt s rest) = suc (size rest)

-- The statements up to the index, this one included.
abbrev pub up_to : ℕ → Stmts → Stmts
up_to i no_stmts = no_stmts
up_to zero (cons_stmt s rest) = cons_stmt s no_stmts
up_to (suc i) (cons_stmt s rest) = cons_stmt s (up_to i rest)

abbrev returning : Option Stmt → Bool
returning none = false
returning (some (stmt kind at)) = is_return kind

-- The statement at the index is a `return`.
abbrev pub returns_at : Stmts → ℕ → Bool
returns_at ss i = returning (stmt_at ss i)

abbrev span_of : Option Stmt → List Span
span_of none = []
span_of (some (stmt kind at)) = at ∷ []

-- The span of the statement behind the index, if that at the index is a `return`.
abbrev pub span_behind : Stmts → ℕ → List Span
span_behind ss i = if returns_at ss i then span_of (stmt_at ss (suc i)) else []

-- Over the indices from 0 to below the bound, in order.
abbrev pub over : (ℕ → List Span) → ℕ → List Span
over f zero = []
over f (suc n) = f 0 ++ over (λ i. f (suc i)) n

abbrev pub spans : List Diagnostic → List Span
spans [] = []
spans (d ∷ ds) = d.span ∷ spans ds

abbrev pub Unreachable : List Diagnostic → Type 0
Unreachable [] = Unit
Unreachable (d ∷ ds) = (d.code ≡ unreachable_code) × Unreachable ds

spans-append : (ds es : List Diagnostic) → spans (ds ++ es) ≡ spans ds ++ spans es
spans-append [] es = refl
spans-append (d ∷ ds) es = ap (λ ss. d.span ∷ ss) (spans-append ds es)

append-Unreachable :
    (ds es : List Diagnostic) → Unreachable ds → Unreachable es → Unreachable (ds ++ es)
append-Unreachable [] es h k = k
append-Unreachable (d ∷ ds) es (e, h) k = (e, append-Unreachable ds es h k)

next_of-spans :
    (b : Bool) (rest : Stmts)
    → spans (next_of b rest) ≡ (if b then span_of (stmt_at rest 0) else [])
next_of-spans true no_stmts = refl
next_of-spans true (cons_stmt (stmt kind at) rest) = refl
next_of-spans false rest = refl

next_of-Unreachable : (b : Bool) (rest : Stmts) → Unreachable (next_of b rest)
next_of-Unreachable true no_stmts = tt
next_of-Unreachable true (cons_stmt (stmt kind at) rest) = (refl, tt)
next_of-Unreachable false rest = tt

reported_spans : (ss : Stmts) → spans (unreachable_in ss) ≡ over (span_behind ss) (size ss)
unfolding unreachable_in
reported_spans no_stmts = refl
reported_spans (cons_stmt (stmt kind at) rest) =
    spans-append (next_of (is_return kind) rest) (unreachable_in rest)
    ∙ ap₂ ◌++◌ (next_of-spans (is_return kind) rest) (reported_spans rest)

reported-Unreachable : (ss : Stmts) → Unreachable (unreachable_in ss)
unfolding unreachable_in
reported-Unreachable no_stmts = tt
reported-Unreachable (cons_stmt (stmt kind at) rest) =
    append-Unreachable (next_of (is_return kind) rest) (unreachable_in rest)
      (next_of-Unreachable (is_return kind) rest) (reported-Unreachable rest)

module _ (host : Host) (program : Program) (calls : Calls (host.World)) where
  behind :
      (s : Stmt) (rest rest' : Stmts) (last : Value)
      → ((v : Value) → eval_stmts host program calls rest v ≡ eval_stmts host program calls rest' v)
      → eval_stmts host program calls (cons_stmt s rest) last
        ≡ eval_stmts host program calls (cons_stmt s rest') last
  unfolding eval_expr
  behind s rest rest' last same =
      ap (λ next. eval_stmt host program calls s >>= next) (fun_ext same)

  -- A `return` ends the block: the statements behind it do not matter.
  eval_stmts-return :
      (kind : StmtKind) (at : Span) (rest rest' : Stmts) (last : Value)
      → is_return kind ≡ true
      → eval_stmts host program calls (cons_stmt (stmt kind at) rest) last
        ≡ eval_stmts host program calls (cons_stmt (stmt kind at) rest') last
  unfolding eval_expr ◌>>=◌ leave
  eval_stmts-return return_void at rest rest' last h = refl
  eval_stmts-return (return_value e) at rest rest' last h =
      fun_ext λ s. leave-drops (eval_expr host program calls e s) _ _ _
  eval_stmts-return _ at rest rest' last h = cc

  eval_stmts-up_to :
      (i : ℕ) (ss : Stmts) (last : Value)
      → returns_at ss i ≡ true
      → eval_stmts host program calls (up_to i ss) last ≡ eval_stmts host program calls ss last
  eval_stmts-up_to i no_stmts last h = refl
  eval_stmts-up_to zero (cons_stmt (stmt kind at) rest) last h =
      eval_stmts-return kind at no_stmts rest last h
  eval_stmts-up_to (suc i) (cons_stmt s rest) last h =
      behind s (up_to i rest) rest last (λ v. eval_stmts-up_to i rest v h)

  -- In a block the lint reports, in their order, the spans of exactly the statements that stand directly
  -- behind a `return`, each as unreachable code; and in every state the block evaluates as the statements
  -- up to any `return` in it, so that none behind it is evaluated.
  pub unreachable_in-spans :
      (ss : Stmts)
      → (spans (unreachable_in ss) ≡ over (span_behind ss) (size ss))
        × Unreachable (unreachable_in ss)
        × ((i : ℕ) (at : Span) (s : State (host.World))
            → returns_at ss i ≡ true
            → eval_block host program calls (block (up_to i ss) at) s
              ≡ eval_block host program calls (block ss at) s)
  unfolding eval_expr
  unreachable_in-spans ss = (
    reported_spans ss,
    reported-Unreachable ss,
    λ i at s h. ap (λ m. m s) (eval_stmts-up_to i ss Value.void h),
  )
