-- ===== src/Common/TextMap.antt =====
-- `HashMap<Arc<str>, V>`: an association list with one entry for a key. Nothing modelled depends on
-- the order of its entries but the order of the diagnostics of Effects.Check.
use yabumi.Common.{
  Bool, true, false, ◌||◌, List, [], ◌∷◌, Option, some, none, if◌then◌else◌, Text, text_eq,
  text_eq_iff, text_eq_refl, ◌≡◌, refl, arith, Bool-cases, inl, inr,
}

abbrev pub TextMap {ℓ} : Type ℓ → Type ℓ
TextMap V = List (Text × V)

module _ {ℓ} {V : Type ℓ} where
  unfoldable pub get : Text → TextMap V → Option V
  get k [] = none
  get k ((j, v) ∷ m) = if text_eq j k then some v else get k m

  unfoldable pub contains_key : Text → TextMap V → Bool
  contains_key k [] = false
  contains_key k ((j, v) ∷ m) = text_eq j k || contains_key k m

  unfoldable pub insert : Text → V → TextMap V → TextMap V
  insert k v [] = (k, v) ∷ []
  insert k v ((j, w) ∷ m) = if text_eq j k then (j, v) ∷ m else (j, w) ∷ insert k v m

  -- All entries of the first map, inserted in order into the second.
  unfoldable pub insert_all : TextMap V → TextMap V → TextMap V
  insert_all [] m = m
  insert_all ((k, v) ∷ s) m = insert_all s (insert k v m)

  pub get-insert :
      (k j : Text) (v : V) (m : TextMap V)
      → get j (insert k v m) ≡ (if text_eq k j then some v else get j m)
  unfolding get insert
  get-insert k j v [] = refl
  get-insert k j v ((i, w) ∷ m) =
      ground (arith, text_eq_iff k j, text_eq_iff i k, text_eq_iff i j, get-insert k j v m)

  pub get-insert_self : (k : Text) (v : V) (m : TextMap V) → get k (insert k v m) ≡ some v
  get-insert_self k v m = simp (get-insert, text_eq_refl)

  -- The keys of a map are distinct.
  abbrev pub Distinct : TextMap V → Type 0
  Distinct [] = Unit
  Distinct ((k, v) ∷ m) = (contains_key k m ≡ false) × Distinct m

  pub contains_key-insert :
      (k j : Text) (v : V) (m : TextMap V)
      → contains_key j (insert k v m) ≡ (text_eq k j || contains_key j m)
  unfolding contains_key insert
  contains_key-insert k j v [] = refl
  contains_key-insert k j v ((i, w) ∷ m) =
      ground (arith, text_eq_iff k j, text_eq_iff i k, text_eq_iff i j, contains_key-insert k j v m)

  pub insert-Distinct : (k : Text) (v : V) (m : TextMap V) → Distinct m → Distinct (insert k v m)
  unfolding insert contains_key
  insert-Distinct k v [] d = (refl, tt)
  insert-Distinct k v ((j, w) ∷ m) d = elim (Bool-cases (text_eq j k)) [
    | inl e ↦ rw e d
    | inr e ↦ rw e (
      ground (arith, text_eq_iff k j, text_eq_iff j k, contains_key-insert k j v m),
      insert-Distinct k v m d.1,
    )
  ]

  pub get-absent : (k : Text) (m : TextMap V) → contains_key k m ≡ false → get k m ≡ none
  unfolding get contains_key
  get-absent k [] h = refl
  get-absent k ((j, v) ∷ m) h = ground (arith, get-absent k m)

  abbrev pub is_some : Option V → Bool
  is_some none = false
  is_some (some v) = true

  pub contains_key-get : (k : Text) (m : TextMap V) → contains_key k m ≡ is_some (get k m)
  unfolding get contains_key
  contains_key-get k [] = refl
  contains_key-get k ((j, v) ∷ m) = ground (arith, contains_key-get k m)

  -- What is inserted later covers what was there.
  pub get-insert_all :
      (j : Text) (s m : TextMap V)
      → Distinct s
      → get j (insert_all s m) ≡ (if contains_key j s then get j s else get j m)
  unfolding get insert_all contains_key
  get-insert_all j [] m d = refl
  get-insert_all j ((k, v) ∷ s) m d =
      ground (arith, get-insert_all j s (insert k v m) d.1, get-insert k j v m, text_eq_iff k j)
