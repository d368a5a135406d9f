-- ===== src/Eval/Env/Laws.antt =====
-- Laws of the environment: what a lookup finds after each operation, and the well-formedness that
-- every operation keeps.
use yabumi.Common.{
  List, [], ◌∷◌, some, Text, All, if◌then◌else◌, text_eq, text_eq_iff, ◌≡◌, refl, inl, inr, arith,
  Option-cases,
}
use yabumi.Common.TextMap.{
  get, insert, insert_all, contains_key-get, Distinct, get-insert, get-insert_all, insert-Distinct,
}
use yabumi.Eval.Panic.{ok, ◌>>=◌}
use yabumi.Eval.Value.{Value}
use yabumi.Eval.Env.{
  bind_all, Scope, Frame, Environment, with_frame, find_in, write_in, try_lookup, lookup_mut, write,
  bind, push_scope, pop_scope, push_frame, pop_frame, merged, visible_bindings, snapshot_for_par,
  current_frame,
}

-- There is a frame, every frame has a scope, and no scope has a name twice.
abbrev pub ValidScopes : List Scope → Type 0
ValidScopes [] = ⊥
ValidScopes (s ∷ ss) = Distinct s × All Distinct ss

pub data IsValid : Environment → Type 0 where
  valid :
      (s : Scope) (ss : List Scope) (fs : List Frame)
      → Distinct s
      → All Distinct ss
      → All (λ g. ValidScopes g.scopes) fs
      → IsValid (record { frames = record { scopes = s ∷ ss } ∷ fs })

insert_all-Distinct : (s m : Scope) → Distinct m → Distinct (insert_all s m)
unfolding insert_all
insert_all-Distinct [] m d = d
insert_all-Distinct ((k, v) ∷ s) m d =
    insert_all-Distinct s (insert k v m) (insert-Distinct k v m d)

merged-Distinct : (ss : List Scope) → Distinct (merged ss)
unfolding merged
merged-Distinct [] = tt
merged-Distinct (s ∷ ss) = insert_all-Distinct s (merged ss) (merged-Distinct ss)

-- A merge shows each name as the innermost scope that has it.
get-merged :
    (ss : List Scope) (name : Text) → All Distinct ss → get name (merged ss) ≡ find_in ss name
unfolding merged find_in get
get-merged [] name d = refl
get-merged (s ∷ ss) name d =
    ground (
      arith,
      get-insert_all name s (merged ss) d.0,
      contains_key-get name s,
      get-merged ss name d.1,
    )

get_copy : (name : Text) (s : Scope) → Distinct s → get name (insert_all s []) ≡ get name s
unfolding get
get_copy name s d = ground (arith, get-insert_all name s [] d, contains_key-get name s)

-- The snapshot of a valid environment for a parallel branch is made, is valid, and shows every name
-- as the environment does.
pub snapshot_for_par-lookup :
    (env : Environment)
    → IsValid env
    → (snapshot : Environment) × (snapshot_for_par env ≡ ok snapshot)
      × IsValid snapshot
      × ((name : Text) → try_lookup name snapshot ≡ try_lookup name env)
unfolding snapshot_for_par visible_bindings try_lookup current_frame with_frame
snapshot_for_par-lookup env (valid s ss fs d ds df) =
    let all = merged (s ∷ ss) in
    let copied = insert_all-Distinct all [] tt in
    (
      with_frame (insert_all all []),
      refl,
      valid (insert_all all []) [] [] copied tt tt,
      λ name.
          ground
            (arith, get_copy name all (merged-Distinct (s ∷ ss)), get-merged (s ∷ ss) name (d, ds)),
    )

find_in-bind :
    (s : Scope) (ss : List Scope) (name j : Text) (v : Value)
    → find_in (insert name v s ∷ ss) j ≡ (if text_eq name j then some v else find_in (s ∷ ss) j)
unfolding find_in
find_in-bind s ss name j v = ground (arith, get-insert name j v s)

-- On a valid environment `bind` gives a valid one, in which the name has the value and every other
-- name is as before.
pub lookup-bind :
    (env : Environment) (name : Text) (v : Value)
    → IsValid env
    → (after : Environment) × (bind name v env ≡ ok after)
      × IsValid after
      × ((j : Text)
          → try_lookup j after ≡ (if text_eq name j then ok (some v) else try_lookup j env))
unfolding bind try_lookup current_frame
lookup-bind env name v (valid s ss fs d ds df) = (
  record { frames = record { scopes = insert name v s ∷ ss } ∷ fs },
  refl,
  valid (insert name v s) ss fs (insert-Distinct name v s d) ds df,
  λ j. ground (arith, get-insert name j v s),
)

-- The scopes after a write to a name that one of them has.
record Written (s : Scope) (ss : List Scope) (name : Text) (v : Value) : Type 0 where
  top : Scope
  rest : List Scope
  written : write_in (s ∷ ss) name v ≡ ok (top ∷ rest)
  distinct_top : Distinct top
  distinct_rest : All Distinct rest
  shows :
      (j : Text) → find_in (top ∷ rest) j ≡ (if text_eq name j then some v else find_in (s ∷ ss) j)

write_in-Written :
    (s : Scope) (ss : List Scope) (name : Text) (v : Value) {w : Value}
    → Distinct s
    → All Distinct ss
    → find_in (s ∷ ss) name ≡ some w
    → Written s ss name v
unfolding write_in find_in
write_in-Written s [] name v d ds e = elim (Option-cases (get name s)) [
  | inl q ↦ cc (rw (q, find_in) at e)
  | inr (u, q) ↦ record {
    top = insert name v s;
    rest = [];
    written = rw (q, write_in);
    distinct_top = insert-Distinct name v s d;
    distinct_rest = ds;
    shows = λ j. ground (arith, get-insert name j v s);
  }
]
write_in-Written s (s' ∷ ss) name v d ds e = elim (Option-cases (get name s)) [
  | inl q ↦
      let inner = write_in-Written s' ss name v ds.0 ds.1 (rw (q, find_in) at e) in
      record {
        top = s;
        rest = inner.top ∷ inner.rest;
        written = rw (q, write_in, inner.written);
        distinct_top = d;
        distinct_rest = (inner.distinct_top, inner.distinct_rest);
        shows = λ j. ground (arith, inner.shows j, text_eq_iff name j);
      }
  | inr (u, q) ↦ record {
    top = insert name v s;
    rest = s' ∷ ss;
    written = rw (q, write_in);
    distinct_top = insert-Distinct name v s d;
    distinct_rest = ds;
    shows = λ j. ground (arith, get-insert name j v s);
  }
]

-- On a valid environment, a write to a visible name gives a valid environment, in which the name has
-- the value, at whatever depth it is bound, and every other name is as before.
pub lookup-write :
    (env : Environment) (name : Text) (v : Value) {w : Value}
    → IsValid env
    → lookup_mut name env ≡ ok w
    → (after : Environment) × (write name v env ≡ ok after)
      × IsValid after
      × ((j : Text)
          → try_lookup j after ≡ (if text_eq name j then ok (some v) else try_lookup j env))
unfolding write try_lookup lookup_mut current_frame
lookup-write env name v {w} (valid s ss fs d ds df) e =
    let found : find_in (s ∷ ss) name ≡ some w = ground arith in
    let done = write_in-Written s ss name v d ds found in
    (
      record { frames = record { scopes = done.top ∷ done.rest } ∷ fs },
      rw done.written,
      valid done.top done.rest fs done.distinct_top done.distinct_rest df,
      λ j. ground (arith, done.shows j),
    )

bind_all-top :
    (bindings : Scope) (s : Scope) (ss : List Scope) (fs : List Frame)
    → (t : Scope) × (bind_all bindings (record { frames = record { scopes = s ∷ ss } ∷ fs })
        ≡ ok (record { frames = record { scopes = t ∷ ss } ∷ fs }))
unfolding bind_all bind
bind_all-top [] s ss fs = (s, refl)
bind_all-top ((name, v) ∷ bindings) s ss fs = bind_all-top bindings (insert name v s) ss fs

-- In a valid environment, a scope that is opened, filled and closed leaves it as it was.
pub pop_scope-bind_all-push_scope :
    (env : Environment) (bindings : Scope)
    → IsValid env
    → (push_scope env >>= λ inner. bind_all bindings inner >>= λ filled. pop_scope filled) ≡ ok env
unfolding push_scope pop_scope
pop_scope-bind_all-push_scope env bindings (valid s ss fs d ds df) =
    rw ((bind_all-top bindings [] (s ∷ ss) fs).1)

-- So does a frame that is pushed and popped.
pub pop_frame-push_frame :
    (env : Environment) (initial : Scope) → pop_frame (push_frame initial env) ≡ env
unfolding pop_frame push_frame
pop_frame-push_frame env initial = refl
