-- ===== src/Eval/Value/Key.antt =====
-- src/eval/value.rs: `MapKey`, its conversions to and from a value, and its equality.
use yabumi.Common.{
  if◌then◌else◌, text_eq_refl, &&-true, Bool, true, false, ◌&&◌, Option, some, none, ◌>>=◌,
  >>=-eq-some, some_inj, ap, ap₂, ◌≡◌, refl, ◌↔◌, text_eq, text_eq_iff, arith, List, [], ◌∷◌,
}
use yabumi.Common.Int.{eqb_ℤ, eqb_ℤ_iff, eqb_ℤ_self}
use yabumi.Eval.Value.{
  Entries, no_entries, entry, MapKey, MapKeys, Value, Values, no_keys, cons_key, nil, cons,
}

unfoldable mutual
  pub to_value : MapKey → Value
  to_value (MapKey.int n) = Value.int n
  to_value (MapKey.bool b) = Value.bool b
  to_value (MapKey.str s) = Value.str s
  to_value (MapKey.tuple ks) = Value.tuple (to_values ks)

  pub to_values : MapKeys → Values
  to_values no_keys = nil
  to_values (cons_key k ks) = cons (to_value k) (to_values ks)

unfoldable mutual
  pub try_from_value : Value → Option MapKey
  try_from_value (Value.int n) = some (MapKey.int n)
  try_from_value (Value.bool b) = some (MapKey.bool b)
  try_from_value (Value.str s) = some (MapKey.str s)
  try_from_value (Value.tuple vs) = try_from_values vs >>= λ ks. some (MapKey.tuple ks)
  try_from_value _ = none

  -- `items.iter().map(MapKey::try_from_value).collect()`
  pub try_from_values : Values → Option MapKeys
  try_from_values nil = some no_keys
  try_from_values (cons v vs) =
      try_from_value v >>= λ k. try_from_values vs >>= λ ks. some (cons_key k ks)

-- The derived equality of keys.
unfoldable mutual
  pub key_eq : MapKey → MapKey → Bool
  key_eq (MapKey.int a) (MapKey.int b) = eqb_ℤ a b
  key_eq (MapKey.bool true) (MapKey.bool b) = b
  key_eq (MapKey.bool false) (MapKey.bool true) = false
  key_eq (MapKey.bool false) (MapKey.bool false) = true
  key_eq (MapKey.str s) (MapKey.str t) = text_eq s t
  key_eq (MapKey.tuple ks) (MapKey.tuple ls) = keys_eq ks ls
  key_eq _ _ = false

  pub keys_eq : MapKeys → MapKeys → Bool
  keys_eq no_keys no_keys = true
  keys_eq (cons_key k ks) (cons_key l ls) = key_eq k l && keys_eq ks ls
  keys_eq _ _ = false

mutual
  unfolding to_value try_from_value

  to_value-back : (k : MapKey) → try_from_value (to_value k) ≡ some k
  to_value-back (MapKey.int n) = refl
  to_value-back (MapKey.bool b) = refl
  to_value-back (MapKey.str s) = refl
  to_value-back (MapKey.tuple ks) = rw (to_values-back ks)

  to_values-back : (ks : MapKeys) → try_from_values (to_values ks) ≡ some ks
  to_values-back no_keys = refl
  to_values-back (cons_key k ks) = rw (to_value-back k, to_values-back ks)

mutual
  unfolding to_value try_from_value

  from_value-back : (v : Value) (k : MapKey) → try_from_value v ≡ some k → to_value k ≡ v
  from_value-back (Value.int n) k h = ground arith
  from_value-back (Value.bool b) k h = ground arith
  from_value-back (Value.str s) k h = ground arith
  from_value-back (Value.tuple vs) k h =
      let (ks, e, q) = >>=-eq-some (try_from_values vs) (λ l. some (MapKey.tuple l)) h in
      rw (← some_inj q) (ap Value.tuple (from_values-back vs ks e))
  from_value-back _ k h = cc

  from_values-back : (vs : Values) (ks : MapKeys) → try_from_values vs ≡ some ks → to_values ks ≡ vs
  from_values-back nil ks h = ground arith
  from_values-back (cons v vs) ks h =
      let (l, e, q) =
        >>=-eq-some (try_from_value v) (λ l. try_from_values vs >>= λ ls. some (cons_key l ls)) h in
      let (ls, e', q') = >>=-eq-some (try_from_values vs) (λ ls. some (cons_key l ls)) q in
      rw (← some_inj q') (ap₂ cons (from_value-back v l e) (from_values-back vs ls e'))

-- A value is a dictionary key exactly when it is the image of one: the two conversions are inverse.
pub try_from_value-eq_iff :
    (v : Value) (k : MapKey) → (try_from_value v ≡ some k) ↔ (to_value k ≡ v)
try_from_value-eq_iff v k = (from_value-back v k, λ e. rw (← e) (to_value-back k))

mutual
  unfolding key_eq

  key_eq→eq : (a b : MapKey) → key_eq a b ≡ true → a ≡ b
  key_eq→eq (MapKey.int a) (MapKey.int b) h = ap MapKey.int (eqb_ℤ_iff a b h)
  key_eq→eq (MapKey.bool true) (MapKey.bool b) h = rw h
  key_eq→eq (MapKey.bool false) (MapKey.bool true) h = cc
  key_eq→eq (MapKey.bool false) (MapKey.bool false) h = refl
  key_eq→eq (MapKey.str s) (MapKey.str t) h = ap MapKey.str ((text_eq_iff s t).0 h)
  key_eq→eq (MapKey.tuple ks) (MapKey.tuple ls) h = ap MapKey.tuple (keys_eq→eq ks ls h)
  key_eq→eq _ _ h = cc

  keys_eq→eq : (ks ls : MapKeys) → keys_eq ks ls ≡ true → ks ≡ ls
  keys_eq→eq no_keys no_keys h = refl
  keys_eq→eq (cons_key k ks) (cons_key l ls) h =
      let (p, q) = &&-true (key_eq k l) (keys_eq ks ls) h in
      ap₂ cons_key (key_eq→eq k l p) (keys_eq→eq ks ls q)
  keys_eq→eq _ _ h = cc

mutual
  unfolding key_eq

  key_eq_self : (a : MapKey) → key_eq a a ≡ true
  key_eq_self (MapKey.int a) = eqb_ℤ_self a
  key_eq_self (MapKey.bool true) = refl
  key_eq_self (MapKey.bool false) = refl
  key_eq_self (MapKey.str s) = text_eq_refl s
  key_eq_self (MapKey.tuple ks) = keys_eq_self ks

  keys_eq_self : (ks : MapKeys) → keys_eq ks ks ≡ true
  keys_eq_self no_keys = refl
  keys_eq_self (cons_key k ks) = rw (key_eq_self k) (keys_eq_self ks)

-- The comparison of keys decides their equality.
pub key_eq_iff : (a b : MapKey) → (key_eq a b ≡ true) ↔ (a ≡ b)
key_eq_iff a b = (key_eq→eq a b, λ e. rw (← e) (key_eq_self a))

-- `IndexMap::get`, and `IndexMap::insert`: a new key goes to the end, an old one keeps its place.
unfoldable pub lookup : MapKey → Entries → Option Value
lookup k no_entries = none
lookup k (entry l v es) = if key_eq l k then some v else lookup k es

unfoldable pub insert : MapKey → Value → Entries → Entries
insert k v no_entries = entry k v no_entries
insert k v (entry l w es) = if key_eq l k then entry l v es else entry l w (insert k v es)

-- `IndexSet::insert`
unfoldable pub set_insert : MapKey → List MapKey → List MapKey
set_insert k [] = k ∷ []
set_insert k (l ∷ ls) = if key_eq l k then l ∷ ls else l ∷ set_insert k ls

-- After an insert, a lookup gives the new value for that key and the old one for any other key.
pub lookup-insert :
    (k j : MapKey) (v : Value) (es : Entries)
    → lookup j (insert k v es) ≡ (if key_eq k j then some v else lookup j es)
unfolding lookup insert
lookup-insert k j v no_entries = refl
lookup-insert k j v (entry l w es) =
    ground (arith, key_eq_iff k j, key_eq_iff l k, key_eq_iff l j, lookup-insert k j v es)
