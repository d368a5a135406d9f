-- ===== src/Eval/Flow/Keeps/Writes.antt =====
-- The writes to the environment grow it: a binding in the innermost scope alone, and an assignment no
-- scope, where it finds the name.
use yabumi.Common.{
  All, Bool, true, List, [], ◌∷◌, ◌≡◌, refl, sym, ◌∙◌, Text, text_eq_iff, arith, subst, Option,
  some, none, Option-cases, inl, inr,
}
use yabumi.Common.TextMap.{
  get, insert, contains_key, contains_key-insert, contains_key-get, Distinct, insert-Distinct,
}
use yabumi.Eval.Env.{
  current_frame, Environment, Frame, Scope, bind, bind_all, write, write_in, try_lookup,
}
use yabumi.Eval.Env.Laws.{IsValid, ValidScopes, lookup-bind}
use yabumi.Eval.Flow.Keeps.{Grows, Grown, SameNames, SameNames-refl, Grown-refl, Grown-trans}
use yabumi.Eval.Lvalue.{PlacePath, assign_name, assign_place, resolve_captured_place}
use yabumi.Eval.Panic.{Outcome, ok, >>=-eq-ok}
use yabumi.Eval.Program.{Program}
use yabumi.Eval.Value.{Value}

env_of : {a b : Environment} → ok a ≡ ok b → a ≡ b
env_of h = cc

-- Where the environment behind is known, growth is about its scopes.
IsValid-behind :
    {a b : Environment} (out : Outcome Environment)
    → out ≡ ok a
    → IsValid a
    → out ≡ ok b
    → IsValid b
IsValid-behind out p v q = subst IsValid (env_of (sym p ∙ q)) v

insert_includes :
    (name j : Text) (v : Value) (s : Scope)
    → contains_key j s ≡ true
    → contains_key j (insert name v s) ≡ true
insert_includes name j v s h = ground (arith, contains_key-insert name j v s)

insert_same :
    (name j : Text) (v : Value) (s : Scope) {w : Value}
    → get name s ≡ some w
    → contains_key j s ≡ contains_key j (insert name v s)
insert_same name j v s h =
    ground (arith, contains_key-insert name j v s, text_eq_iff name j, contains_key-get name s)

bind_grows :
    (name : Text) (v : Value) (s : Scope) (ss : List Scope) (fs : List Frame) (after : Environment)
    → IsValid after
    → bind name v (record { frames = record { scopes = s ∷ ss } ∷ fs }) ≡ ok after
    → Grown (record { frames = record { scopes = s ∷ ss } ∷ fs }) after
unfolding bind
bind_grows name v s ss fs after va h = subst (Grown _) (env_of h) (record {
  still_valid = subst IsValid (sym (env_of h)) va;
  grown = ((λ j. insert_includes name j v s, SameNames-refl ss), refl);
})

pub bind-Grows : (name : Text) (v : Value) → Grows (bind name v)
bind-Grows name v _ after (IsValid.valid s ss fs d ds df) h =
    let env : Environment = record { frames = record { scopes = s ∷ ss } ∷ fs } in
    let (e, p, ve, seen) = lookup-bind env name v (IsValid.valid s ss fs d ds df) in
    bind_grows name v s ss fs after (IsValid-behind (bind name v env) p ve h) h

scopes_of : {a b : List Scope} → ok a ≡ ok b → a ≡ b
scopes_of h = cc

-- A write to a name keeps the names of every scope.
write_in-SameNames :
    (ss : List Scope) (name : Text) (v : Value) (ts : List Scope)
    → All Distinct ss
    → write_in ss name v ≡ ok ts
    → SameNames ss ts × All Distinct ts
unfolding write_in
write_in-SameNames [] name v ts d h = cc
write_in-SameNames (s ∷ ss) name v ts d h = elim (Option-cases (get name s)) [
  | inl absent ↦
      let (us, written, rest) =
        >>=-eq-ok (write_in ss name v) (λ us. ok (s ∷ us)) (rw (absent, write_in) at h) in
      let (same, distinct) = write_in-SameNames ss name v us d.1 written in
      subst (λ us. SameNames (s ∷ ss) us × All Distinct us) (scopes_of rest)
        (((λ j. refl), same), (d.0, distinct))
  | inr (w, there) ↦
      subst (λ us. SameNames (s ∷ ss) us × All Distinct us) (scopes_of (rw (there, write_in) at h))
        (
          ((λ j. insert_same name j v s there), SameNames-refl ss),
          (insert-Distinct name v s d.0, d.1),
        )
]

written_Grown :
    (s : Scope) (ss ts : List Scope) (fs : List Frame)
    → SameNames (s ∷ ss) ts
    → All Distinct ts
    → All (λ g. ValidScopes g.scopes) fs
    → Grown
        (record { frames = record { scopes = s ∷ ss } ∷ fs })
        (record { frames = record { scopes = ts } ∷ fs })
written_Grown s ss [] fs same d df = elim same [ ]
written_Grown s ss (t ∷ ts) fs same d df = record {
  still_valid = IsValid.valid t ts fs d.0 d.1 df;
  grown = ((λ j there. sym (same.0 j) ∙ there, same.1), refl);
}

pub write-Grows : (name : Text) (v : Value) → Grows (write name v)
unfolding write current_frame
write-Grows name v _ after (IsValid.valid s ss fs d ds df) h =
    let (ts, written, rest) = >>=-eq-ok (write_in (s ∷ ss) name v) _ h in
    let (same, distinct) = write_in-SameNames (s ∷ ss) name v ts (d, ds) written in
    subst (Grown _) (env_of rest) (written_Grown s ss ts fs same distinct df)

assigned :
    (name : Text) (v : Value) (env after : Environment) (found : Option Value)
    → IsValid env
    → try_lookup name env ≡ ok found
    → assign_name name v env ≡ ok after
    → Grown env after
unfolding assign_name
assigned name v env after none ok_env e h = bind-Grows name v env after ok_env (rw e at h)
assigned name v env after (some w) ok_env e h = write-Grows name v env after ok_env (rw e at h)

pub assign_name-Grows : (name : Text) (v : Value) → Grows (assign_name name v)
unfolding assign_name
assign_name-Grows name v env after ok_env h =
    let (found, e, rest) = >>=-eq-ok (try_lookup name env) _ h in
    assigned name v env after found ok_env e h

pub assign_place-Grows :
    (path : PlacePath) (v : Value) (program : Program) (insert_last : Bool)
    → Grows (λ env. assign_place path v env program insert_last)
unfolding assign_place
assign_place-Grows path v program insert_last env after ok_env h =
    let (place, resolved, written) =
      >>=-eq-ok (resolve_captured_place path env program insert_last) _ h in
    write-Grows path.root (place.put v) env after ok_env written

pub bind_all-Grows : (bindings : Scope) → Grows (bind_all bindings)
unfolding bind_all
bind_all-Grows [] env after ok_env h = subst (Grown env) (env_of h) (Grown-refl env ok_env)
bind_all-Grows ((name, v) ∷ bindings) env after ok_env h =
    let (e, bound, rest) = >>=-eq-ok (bind name v env) (bind_all bindings) h in
    let first = bind-Grows name v env e ok_env bound in
    Grown-trans env e after first (bind_all-Grows bindings e after first.still_valid rest)
