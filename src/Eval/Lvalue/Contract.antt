-- ===== src/Eval/Lvalue/Contract.antt =====
-- What an assignment through a place does to the environment.
use yabumi.Common.{
  Bool, false, Option, some, Text, text_eq, text_eq_refl, ◌≡◌, refl, ◌∙◌, ap, if◌then◌else◌,
  Option-cases, inl, inr, arith,
}
use yabumi.Eval.Env.{Environment, lookup_mut, try_lookup}
use yabumi.Eval.Env.Laws.{IsValid, lookup-write, lookup-bind}
use yabumi.Eval.Panic.{ok, >>=-eq-ok}
use yabumi.Eval.Program.{Program}
use yabumi.Eval.Value.{Value}
use yabumi.Eval.Lvalue.{PlacePath, Place, resolve_captured_place, assign_place, assign_name}
use yabumi.Eval.Lvalue.Laws.{resolve_steps-Puts}

lookup_mut-found :
    (name : Text) (env : Environment) {v : Value}
    → try_lookup name env ≡ ok (some v)
    → lookup_mut name env ≡ ok v
unfolding try_lookup lookup_mut
lookup_mut-found name env h = ground arith

try_lookup-ok :
    (name : Text) (env : Environment)
    → IsValid env
    → (found : Option Value) × (try_lookup name env ≡ ok found)
unfolding try_lookup
try_lookup-ok name _ (IsValid.valid s ss fs d ds df) = (_, refl)

-- Where a path resolves in a valid environment, an assignment through it succeeds; the same path then
-- leads to the value, the environment is valid, and every other variable is as before.
pub assign_place-found :
    (path : PlacePath) (value : Value) (env : Environment) (program : Program) (allow : Bool)
    {place : Place}
    → IsValid env
    → resolve_captured_place path env program allow ≡ ok place
    → (after : Environment) × (assign_place path value env program allow ≡ ok after)
      × IsValid after
      × (resolve_captured_place path after program false
          ≡ ok (record { here = value; put = place.put }))
      × ((j : Text) → text_eq path.root j ≡ false → try_lookup j after ≡ try_lookup j env)
unfolding resolve_captured_place assign_place
assign_place-found path value env program allow {place = place} ok_env found =
    let (root, rooted, resolved) = >>=-eq-ok (lookup_mut path.root env) _ found in
    let (after, written, ok_after, seen) =
      lookup-write env path.root (place.put value) ok_env rooted in
    let there = lookup_mut-found path.root after (seen path.root ∙ rw (text_eq_refl path.root)) in
    (
      after,
      rw found written,
      ok_after,
      rw there (resolve_steps-Puts program root path.steps allow resolved value false),
      λ j other. seen j ∙ rw other,
    )

-- Assigning to a name in a valid environment succeeds, whether the name is bound or not; the
-- environment is then valid, the name has the value, and every other name is as before.
pub assign_name-lookup :
    (name : Text) (v : Value) (env : Environment)
    → IsValid env
    → (after : Environment) × (assign_name name v env ≡ ok after)
      × IsValid after
      × ((j : Text)
          → try_lookup j after ≡ (if text_eq name j then ok (some v) else try_lookup j env))
unfolding assign_name
assign_name-lookup name v env ok_env =
    let (found, e) = try_lookup-ok name env ok_env in
    elim (Option-cases found) [
      | inl absent ↦
          let (after, bound, ok_after, rest) = lookup-bind env name v ok_env in
          (after, rw (e, absent) bound, ok_after, rest)
      | inr (w, there) ↦
          let seen = lookup_mut-found name env (e ∙ ap ok there) in
          let (after, written, ok_after, rest) = lookup-write env name v ok_env seen in
          (after, rw (e, there) written, ok_after, rest)
    ]
