-- ===== src/Eval/Ops/Equality.antt =====
-- src/eval/value.rs: `PartialEq for Value`, with the equality of `IndexMap` and `IndexSet`, which
-- takes no account of the order.
use yabumi.Common.{
  none, some, Option, ◌==◌, Bool, true, false, ◌&&◌, any, all, length, List, text_eq,
}
use yabumi.Common.Int.{eqb_ℤ}
use yabumi.Eval.Float.{FloatOps}
use yabumi.Eval.Value.{MapKey, Value, Values, Entries, nil, cons, no_entries, entry, entry_count}
use yabumi.Eval.Value.Key.{key_eq, lookup}

-- Two booleans agree.
abbrev pub bool_eq : Bool → Bool → Bool
bool_eq true b = b
bool_eq false true = false
bool_eq false false = true

-- `IndexSet`: as many keys, and every key of the one is in the other.
unfoldable pub set_eq : List MapKey → List MapKey → Bool
set_eq ks ls = length ks == length ls && all (λ k. any (key_eq k) ls) ks

-- There is a value and it passes.
abbrev pub holds_at : (Value → Bool) → Option Value → Bool
holds_at p none = false
holds_at p (some v) = p v

module _ (f : FloatOps) where
  unfoldable mutual
    unfolding set_eq

    pub value_eq : Value → Value → Bool
    value_eq (Value.int a) (Value.int b) = eqb_ℤ a b
    value_eq (Value.float a) (Value.float b) = f.eq a b
    value_eq (Value.bool a) (Value.bool b) = bool_eq a b
    value_eq Value.void Value.void = true
    value_eq (Value.str s) (Value.str t) = text_eq s t
    value_eq (Value.list vs) (Value.list ws) = values_eq vs ws
    value_eq (Value.dict es) (Value.dict ds) = entry_count es == entry_count ds && entries_in es ds
    value_eq (Value.set ks) (Value.set ls) = set_eq ks ls
    value_eq (Value.tuple vs) (Value.tuple ws) = values_eq vs ws
    value_eq (Value.struct n vs) (Value.struct m ws) = text_eq n m && values_eq vs ws
    value_eq (Value.enum n i c vs) (Value.enum m j d ws) =
        text_eq n m && i == j && text_eq c d && values_eq vs ws
    value_eq _ _ = false

    pub values_eq : Values → Values → Bool
    values_eq nil nil = true
    values_eq (cons v vs) (cons w ws) = value_eq v w && values_eq vs ws
    values_eq _ _ = false

    -- Every entry of the one is in the other, at an equal value.
    pub entries_in : Entries → Entries → Bool
    entries_in no_entries ds = true
    entries_in (entry k v es) ds = holds_at (value_eq v) (lookup k ds) && entries_in es ds
