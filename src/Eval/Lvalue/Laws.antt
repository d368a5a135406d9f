-- ===== src/Eval/Lvalue/Laws.antt =====
-- A place is a lens: what is put in is found there, and resolving alone changes nothing.
use yabumi.Common.{
  subst, ℕ, zero, suc, Bool, true, false, ◌&&◌, List, [], ◌∷◌, Option, some, none, ◌≡◌, refl, ◌∙◌,
  ap, arith, if◌then◌else◌,
}
use yabumi.Common.Int.{pos}
use yabumi.Diagnostics.Position.{Span}
use yabumi.Eval.Panic.{Outcome, Abort, ok, abort, >>=-eq-ok}
use yabumi.Eval.Program.{Program, field_index_of}
use yabumi.Eval.Value.{Value, Values, MapKey, Entries, nth, replace, nil, cons, no_entries, entry}
use yabumi.Eval.Value.Key.{try_from_value, lookup, insert, key_eq_iff, lookup-insert}
use yabumi.Eval.Lvalue.{
  PlaceStep, Place, element, entry_at, resolve_step, resolve_steps, is_last, place_or, dict_entry,
}

nth-replace :
    (vs : Values) (i : ℕ) (w : Value) {v : Value}
    → nth vs i ≡ some v
    → nth (replace vs i w) i ≡ some w
nth-replace nil i w h = cc
nth-replace (cons v vs) zero w h = refl
nth-replace (cons v vs) (suc i) w h = nth-replace vs i w h

replace-replace :
    (vs : Values) (i : ℕ) (w x : Value) → replace (replace vs i w) i x ≡ replace vs i x
replace-replace nil i w x = refl
replace-replace (cons v vs) zero w x = refl
replace-replace (cons v vs) (suc i) w x = ap (cons v) (replace-replace vs i w x)

replace_same : (vs : Values) (i : ℕ) {v : Value} → nth vs i ≡ some v → replace vs i v ≡ vs
replace_same nil i h = refl
replace_same (cons v vs) zero h = cc
replace_same (cons v vs) (suc i) h = ap (cons v) (replace_same vs i h)

insert-insert :
    (k : MapKey) (w x : Value) (es : Entries) → insert k x (insert k w es) ≡ insert k x es
unfolding insert
insert-insert k w x no_entries = ground (arith, key_eq_iff k k)
insert-insert k w x (entry l v es) = ground (arith, key_eq_iff l k, insert-insert k w x es)

insert_same : (k : MapKey) (es : Entries) (v : Value) → lookup k es ≡ some v → insert k v es ≡ es
unfolding lookup insert
insert_same k no_entries v h = cc
insert_same k (entry l w es) v h = ground (arith, insert_same k es v)

lookup_self : (k : MapKey) (w : Value) (es : Entries) → lookup k (insert k w es) ≡ some w
lookup_self k w es = ground (arith, lookup-insert k k w es, key_eq_iff k k)

-- What a step from `root` puts in is found by the same step, at any later setting of the insertion,
-- and putting again is as putting once.
abbrev pub Puts : (Value → Bool → Outcome Place) → Place → Type 0
Puts step p =
    (w : Value) (insert_key : Bool)
    → step (p.put w) insert_key ≡ ok (record { here = w; put = p.put })

abbrev is_ok : Outcome Place → Bool
is_ok (ok p) = true
is_ok _ = false

ok_inj : {p q : Place} → ok p ≡ ok q → p ≡ q
ok_inj h = cc

place_or-eq-ok :
    (o : Option Value) (put : Value → Value) (fault : Outcome Place) {p : Place}
    → place_or o put fault ≡ ok p
    → is_ok fault ≡ false
    → (v : Value) × (o ≡ some v) × (record { here = v; put = put } ≡ p)
place_or-eq-ok (some v) put fault h faulty = (v, refl, ok_inj h)
place_or-eq-ok none put fault h faulty = absurd cc

place_or-some :
    {o : Option Value} (put : Value → Value) (fault : Outcome Place) {v : Value}
    → o ≡ some v
    → place_or o put fault ≡ ok (record { here = v; put = put })
place_or-some put fault e = rw e

element-again :
    (make : Values → Value) (vs : Values) (i : ℕ) (w : Value) (fault : Outcome Place) {v : Value}
    → nth vs i ≡ some v
    → element make (replace vs i w) i fault
      ≡ ok (record { here = w; put = λ x. make (replace vs i x) })
element-again make vs i w fault e = place_or-some _ fault (nth-replace vs i w e) ∙ λ j.
    ok (record { here = w; put = λ x. make (replace-replace vs i w x j) })

entry_at-again :
    (es : Entries) (k : MapKey) (w : Value) (insert_key : Bool) (at : Span)
    → entry_at (insert k w es) k insert_key at
      ≡ ok (record { here = w; put = λ x. Value.dict (insert k x es) })
entry_at-again es k w insert_key at = place_or-some _ _ (lookup_self k w es) ∙ λ j.
    ok (record { here = w; put = λ x. Value.dict (insert-insert k w x es j) })

-- The place of a key, which is there or has been put in.
entry_place :
    (o : Option Value) (put : Value → Value) (insert_key : Bool) (a : Abort) {p : Place}
    → place_or o put (if insert_key then ok (record { here = Value.void; put = put }) else abort a)
      ≡ ok p
    → (v : Value) × (record { here = v; put = put } ≡ p)
entry_place (some v) put insert_key a h = (v, ok_inj h)
entry_place none put true a h = (Value.void, ok_inj h)
entry_place none put false a h = absurd cc

dict_entry-Puts :
    (es : Entries) (o : Option MapKey) (insert_key : Bool) (at : Span) {p : Place}
    → dict_entry es o insert_key at ≡ ok p
    → (k : MapKey) × (v : Value) × (o ≡ some k)
      × (record { here = v; put = λ w. Value.dict (insert k w es) } ≡ p)
dict_entry-Puts es none insert_key at h = absurd cc
dict_entry-Puts es (some k) insert_key at h =
    let (v, q) = entry_place (lookup k es) _ insert_key _ h in (k, v, refl, q)

resolve_step-Puts :
    (program : Program) (root : Value) (step : PlaceStep) (insert_key : Bool) {p : Place}
    → resolve_step program root step insert_key ≡ ok p
    → Puts (λ v. resolve_step program v step) p
unfolding resolve_step
resolve_step-Puts program (Value.struct type_name fields) (PlaceStep.field name) insert_key h =
    let (i, found, h') = >>=-eq-ok (field_index_of program type_name name) _ h in
    let (v, e, q) = place_or-eq-ok (nth fields i) _ _ h' refl in
    subst (Puts (λ v. resolve_step program v (PlaceStep.field name))) q
      (λ w later. rw found (element-again (Value.struct type_name) fields i w _ e))
resolve_step-Puts program (Value.tuple items) (PlaceStep.tuple_index i at) insert_key h =
    let (v, e, q) = place_or-eq-ok (nth items i) _ _ h refl in
    subst (Puts (λ v. resolve_step program v (PlaceStep.tuple_index i at))) q
      (λ w later. element-again Value.tuple items i w _ e)
resolve_step-Puts program (Value.list items) (PlaceStep.index (Value.int (pos i)) at) insert_key h =
    let (v, e, q) = place_or-eq-ok (nth items i) _ _ h refl in
    subst (Puts (λ v. resolve_step program v (PlaceStep.index (Value.int (pos i)) at))) q
      (λ w later. element-again Value.list items i w _ e)
resolve_step-Puts program (Value.dict es) (PlaceStep.index key at) insert_key h =
    let (k, v, e, q) = dict_entry-Puts es (try_from_value key) insert_key at h in
    subst (Puts (λ v. resolve_step program v (PlaceStep.index key at))) q
      (λ w later. rw e (entry_at-again es k w later at))
resolve_step-Puts program (Value.list items) (PlaceStep.index key at) insert_key h = absurd cc
resolve_step-Puts program root step insert_key h = absurd cc

-- What is put at the end of a path is found at its end, and putting again is as putting once.
pub resolve_steps-Puts :
    (program : Program) (root : Value) (steps : List PlaceStep) (allow : Bool) {p : Place}
    → resolve_steps program root steps allow ≡ ok p
    → Puts (λ v. resolve_steps program v steps) p
unfolding resolve_steps
resolve_steps-Puts program root [] allow h =
    subst (Puts (λ v. resolve_steps program v [])) (ok_inj h) (λ w later. refl)
resolve_steps-Puts program root (s ∷ rest) allow h =
    let (child, found, h') = >>=-eq-ok (resolve_step program root s (is_last rest && allow)) _ h in
    let (inner, found', h'') = >>=-eq-ok (resolve_steps program child.here rest allow) _ h' in
    subst (Puts (λ v. resolve_steps program v (s ∷ rest))) (ok_inj h'') (λ w later.
      rw
        (
          resolve_step-Puts program root s _ found (inner.put w) (is_last rest && later),
          resolve_steps-Puts program child.here rest allow found' w later,
        )
        refl)
