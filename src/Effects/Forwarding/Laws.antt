-- ===== src/Effects/Forwarding/Laws.antt =====
-- What the mask of a function says: which parameters some call of the body forwards.
use yabumi.Common.{
  Bool-cases, inl, inr, ℕ, zero, suc, ◌<◌, ◌==◌, ◌||◌, Bool, true, false, List, [], ◌∷◌, any, set,
  length, get_elem?, Option, some, none, if◌then◌else◌, ◌≡◌, refl, sym, ap, ◌∙◌, arith,
}
use yabumi.Ast.Decl.{FunctionDecl, Param}
use yabumi.Ast.Expr.{Expr, expr, ident, Args, no_args, cons_arg}
use yabumi.Effects.Forwarding.{
  compute_hof_forwarding, function_param, mark, mark_args, mark_param, mark_site, mark_sites,
  unmarked,
}
use yabumi.Effects.Site.{CallSite, is_stdlib_hof_method}
use yabumi.Effects.Walk.{walk_block_calls}

abbrev pub points_at : ℕ → Option ℕ → Bool
points_at i none = false
points_at i (some j) = i == j

-- The expression is the name of the parameter with the index `i`.
abbrev pub names_param : FunctionDecl → ℕ → Expr → Bool
names_param decl i (expr id (ident name) at) = points_at i (function_param name decl.params)
names_param decl i _ = false

abbrev pub any_names_param : FunctionDecl → ℕ → Args → Bool
any_names_param decl i no_args = false
any_names_param decl i (cons_arg name e placeholder rest) =
    names_param decl i e || any_names_param decl i rest

-- The call calls the parameter with the index `i`, or hands it to a higher-order method.
abbrev pub forwards : FunctionDecl → ℕ → CallSite → Bool
forwards decl i (CallSite.call at callee args) = names_param decl i callee
forwards decl i (CallSite.pipe at callee source args) = names_param decl i callee
forwards decl i (CallSite.method at receiver name args) =
    if is_stdlib_hof_method name then any_names_param decl i args else false

abbrev or_at : Option Bool → Bool → Option Bool
or_at none b = none
or_at (some a) b = some (a || b)

or_at-or_at : (o : Option Bool) (a b : Bool) → or_at (or_at o a) b ≡ or_at o (a || b)
or_at-or_at none a b = refl
or_at-or_at (some true) a b = refl
or_at-or_at (some false) a b = refl

or_at-false : (o : Option Bool) → or_at o false ≡ o
or_at-false none = refl
or_at-false (some true) = refl
or_at-false (some false) = refl

get_elem?-set :
    (xs : List Bool) (j i : ℕ) → get_elem? (set xs j true) i ≡ or_at (get_elem? xs i) (i == j)
get_elem?-set [] j i = refl
get_elem?-set (true ∷ xs) zero zero = refl
get_elem?-set (false ∷ xs) zero zero = refl
get_elem?-set (x ∷ xs) zero (suc i) = ground (arith, or_at-false (get_elem? xs i))
get_elem?-set (true ∷ xs) (suc j) zero = ground arith
get_elem?-set (false ∷ xs) (suc j) zero = ground arith
get_elem?-set (x ∷ xs) (suc j) (suc i) = ground (arith, get_elem?-set xs j i)

get_elem?-mark_param :
    (o : Option ℕ) (f : List Bool) (i : ℕ)
    → get_elem? (mark_param o f) i ≡ or_at (get_elem? f i) (points_at i o)
get_elem?-mark_param none f i = sym (or_at-false (get_elem? f i))
get_elem?-mark_param (some j) f i = get_elem?-set f j i

get_elem?-unmarked :
    (ps : List Param) (i : ℕ) → i < length ps → get_elem? (unmarked ps) i ≡ some false
get_elem?-unmarked [] i below = absurd (omega arith)
get_elem?-unmarked (p ∷ ps) zero below = refl
get_elem?-unmarked (p ∷ ps) (suc i) below = get_elem?-unmarked ps i (omega arith)

module _ (decl : FunctionDecl) (i : ℕ) where
  get_elem?-mark :
      (e : Expr) (f : List Bool)
      → get_elem? (mark decl e f) i ≡ or_at (get_elem? f i) (names_param decl i e)
  unfolding mark
  get_elem?-mark (expr id (ident name) at) f =
      get_elem?-mark_param (function_param name decl.params) f i
  get_elem?-mark _ f = sym (or_at-false (get_elem? f i))

  get_elem?-mark_args :
      (args : Args) (f : List Bool)
      → get_elem? (mark_args decl args f) i ≡ or_at (get_elem? f i) (any_names_param decl i args)
  unfolding mark_args
  get_elem?-mark_args no_args f = sym (or_at-false (get_elem? f i))
  get_elem?-mark_args (cons_arg name e placeholder rest) f =
      rw (get_elem?-mark_args rest (mark decl e f), get_elem?-mark e f)
        (or_at-or_at (get_elem? f i) (names_param decl i e) (any_names_param decl i rest))

  get_elem?-mark_site :
      (site : CallSite) (f : List Bool)
      → get_elem? (mark_site decl site f) i ≡ or_at (get_elem? f i) (forwards decl i site)
  unfolding mark_site
  get_elem?-mark_site (CallSite.call at callee args) f = get_elem?-mark callee f
  get_elem?-mark_site (CallSite.pipe at callee source args) f = get_elem?-mark callee f
  get_elem?-mark_site (CallSite.method at receiver name args) f =
      elim (Bool-cases (is_stdlib_hof_method name)) [
        | inl e ↦ rw e (get_elem?-mark_args args f)
        | inr e ↦ rw e (sym (or_at-false (get_elem? f i)))
      ]

  get_elem?-mark_sites :
      (sites : List CallSite) (f : List Bool)
      → get_elem? (mark_sites decl sites f) i ≡ or_at (get_elem? f i) (any (forwards decl i) sites)
  unfolding mark_sites
  get_elem?-mark_sites [] f = sym (or_at-false (get_elem? f i))
  get_elem?-mark_sites (site ∷ sites) f =
      rw (get_elem?-mark_sites sites (mark_site decl site f), get_elem?-mark_site site f)
        (or_at-or_at (get_elem? f i) (forwards decl i site) (any (forwards decl i) sites))

  -- The mask that the code computes for a function tells, for each of its parameters, whether the body has a
  -- call of the parameter, a pipe into it, or a call of a higher-order method of the library with it among
  -- the arguments (which docs/ARCHITECTURE.md 5.5 and the function's doc comment leave out, as they count
  -- direct calls only); the name stands for the first parameter of that name with a function type.
  pub get_elem?-compute_hof_forwarding :
      i < length decl.params
      → get_elem? (compute_hof_forwarding decl) i
        ≡ some (any (forwards decl i) (walk_block_calls decl.body))
  unfolding compute_hof_forwarding
  get_elem?-compute_hof_forwarding below =
      get_elem?-mark_sites (walk_block_calls decl.body) (unmarked decl.params)
      ∙ ap (λ o. or_at o (any (forwards decl i) (walk_block_calls decl.body)))
          (get_elem?-unmarked decl.params i below)
