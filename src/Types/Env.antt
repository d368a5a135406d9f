-- ===== src/Types/Env.antt =====
-- src/types/env.rs: `TypeEnv`, the checker's stack of scopes, with the innermost in front.
use yabumi.Common.{Bool, List, [], ◌∷◌, Option, some, none, Text}
use yabumi.Common.TextMap.{TextMap, get, insert}
use yabumi.Diagnostics.Position.{Span}
use yabumi.Eval.Panic.{Outcome, ok, unreachable}
use yabumi.Types.Ty.{Ty}

pub record Binding : Type 0 where
  pub ty : Ty
  pub mutable : Bool
  pub def_span : Span

pub record TypeEnv : Type 0 where
  pub scopes : List (TextMap Binding)
  pub generics : List Text

unfoldable pub for_function : List Text → TypeEnv
for_function generics = record { scopes = [] ∷ []; generics = generics }

unfoldable pub root : TypeEnv
root = for_function []

unfoldable pub push_scope : TypeEnv → TypeEnv
push_scope env = record env { scopes = [] ∷ env.scopes }

-- `Vec::pop` leaves an empty stack as it is.
abbrev outer {ℓ} : {A : Type ℓ} → List A → List A
outer [] = []
outer (s ∷ ss) = ss

unfoldable pub pop_scope : TypeEnv → TypeEnv
pop_scope env = record env { scopes = outer env.scopes }

abbrev pub bind_in : List (TextMap Binding) → Text → Binding → TypeEnv → Outcome TypeEnv
bind_in [] name b env = unreachable
bind_in (s ∷ ss) name b env = ok (record env { scopes = insert name b s ∷ ss })

unfoldable pub bind : Text → Ty → Bool → Span → TypeEnv → Outcome TypeEnv
bind name ty mutable def_span env =
    bind_in env.scopes name (record { ty = ty; mutable = mutable; def_span = def_span }) env

-- `scopes.iter().rev().find_map(|s| s.get(name))`
unfoldable pub lookup_in : List (TextMap Binding) → Text → Option Binding
lookup_in [] name = none
lookup_in (s ∷ ss) name = elim (get name s) [ some b ↦ some b | none ↦ lookup_in ss name ]

unfoldable pub lookup : Text → TypeEnv → Option Binding
unfolding lookup_in
lookup name env = lookup_in env.scopes name
