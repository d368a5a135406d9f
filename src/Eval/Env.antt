-- ===== src/Eval/Env.antt =====
-- src/eval/env.rs: `Environment`, a stack of frames that are stacks of scopes. A `Vec` that serves as
-- a stack is a list with its top in front. `Program` of the same file is in Eval/Program.
pub mod Laws
use yabumi.Common.{List, [], ◌∷◌, Option, some, none, Text, Bool, true, false}
use yabumi.Common.TextMap.{TextMap, get, insert, insert_all}
use yabumi.Eval.Panic.{Outcome, ok, unreachable, ◌>>=◌}
use yabumi.Eval.Value.{Value}

abbrev pub Scope : Type 0
Scope = TextMap Value

pub record Frame : Type 0 where
  pub scopes : List Scope

pub record Environment : Type 0 where
  pub frames : List Frame

abbrev pub frame_of : Scope → Frame
frame_of initial = record { scopes = initial ∷ [] }

unfoldable pub with_frame : Scope → Environment
with_frame initial = record { frames = frame_of initial ∷ [] }

-- `frames.last()`, which is there by the way an environment is made.
abbrev top_frame : List Frame → Outcome Frame
top_frame [] = unreachable
top_frame (f ∷ fs) = ok f

unfoldable pub current_frame : Environment → Outcome Frame
current_frame env = top_frame env.frames

-- `current_frame_mut()`: the current frame is replaced.
abbrev set_top : List Frame → Frame → List Frame
set_top [] g = []
set_top (f ∷ fs) g = g ∷ fs

abbrev with_current : Environment → List Scope → Environment
with_current env ss = record { frames = set_top env.frames (record { scopes = ss }) }

-- `scopes.iter().rev().find_map(|s| s.get(name))`
unfoldable pub find_in : List Scope → Text → Option Value
find_in [] name = none
find_in (s ∷ ss) name = elim (get name s) [ some v ↦ some v | none ↦ find_in ss name ]

unfoldable pub try_lookup : Text → Environment → Outcome (Option Value)
unfolding current_frame find_in
try_lookup name env = current_frame env >>= λ f. ok (find_in f.scopes name)

-- The scopes after a write through the reference that `lookup_mut` returns.
unfoldable pub write_in : List Scope → Text → Value → Outcome (List Scope)
write_in [] name v = unreachable
write_in (s ∷ ss) name v = elim (get name s) [
  | some _ ↦ ok (insert name v s ∷ ss)
  | none ↦ write_in ss name v >>= λ ts. ok (s ∷ ts)
]

-- `lookup_mut(name)`: the value, which the type checker has seen to be there.
abbrev or_unreachable : Option Value → Outcome Value
or_unreachable none = unreachable
or_unreachable (some v) = ok v

unfoldable pub lookup_mut : Text → Environment → Outcome Value
unfolding current_frame find_in
lookup_mut name env = current_frame env >>= λ f. or_unreachable (find_in f.scopes name)

-- `*lookup_mut(name) = v`
unfoldable pub write : Text → Value → Environment → Outcome Environment
unfolding current_frame write_in
write name v env =
    current_frame env >>= λ f. write_in f.scopes name v >>= λ ss. ok (with_current env ss)

abbrev bind_in : List Scope → Text → Value → Outcome (List Scope)
bind_in [] name v = unreachable
bind_in (s ∷ ss) name v = ok (insert name v s ∷ ss)

unfoldable pub bind : Text → Value → Environment → Outcome Environment
unfolding current_frame
bind name v env =
    current_frame env >>= λ f. bind_in f.scopes name v >>= λ ss. ok (with_current env ss)

unfoldable pub push_scope : Environment → Outcome Environment
unfolding current_frame
push_scope env = current_frame env >>= λ f. ok (with_current env ([] ∷ f.scopes))

-- `Vec::pop` leaves an empty stack as it is.
abbrev pop {ℓ} : {A : Type ℓ} → List A → List A
pop [] = []
pop (x ∷ xs) = xs

unfoldable pub pop_scope : Environment → Outcome Environment
unfolding current_frame
pop_scope env = current_frame env >>= λ f. ok (with_current env (pop f.scopes))

unfoldable pub push_frame : Scope → Environment → Environment
push_frame initial env = record { frames = frame_of initial ∷ env.frames }

unfoldable pub pop_frame : Environment → Environment
pop_frame env = record { frames = pop env.frames }

-- The scopes merged from the outermost in, so that an inner name covers an outer one.
unfoldable pub merged : List Scope → Scope
merged [] = []
merged (s ∷ ss) = insert_all s (merged ss)

unfoldable pub visible_bindings : Environment → Outcome Scope
unfolding current_frame merged
visible_bindings env = current_frame env >>= λ f. ok (merged f.scopes)

unfoldable pub snapshot_for_par : Environment → Outcome Environment
snapshot_for_par env = visible_bindings env >>= λ scope. ok (with_frame (insert_all scope []))

-- `for (name, val) in bindings { env.bind(name, val) }` of `eval_match` in src/eval/expr.rs.
unfoldable pub bind_all : Scope → Environment → Outcome Environment
bind_all [] env = ok env
bind_all ((name, v) ∷ bindings) env = bind name v env >>= λ after. bind_all bindings after
