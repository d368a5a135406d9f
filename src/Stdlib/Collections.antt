-- ===== src/Stdlib/Collections.antt =====
-- src/stdlib/collections.rs: the methods that change a list, a dict or a set in place. Each gives its
-- result and the collection behind it.
use yabumi.Common.{
  ℕ, zero, suc, leb, Bool, true, false, List, [], ◌∷◌, Option, some, none, if◌then◌else◌, text,
}
use yabumi.Common.Int.{ℤ, pos, negsuc}
use yabumi.Diagnostics.Position.{Span}
use yabumi.Eval.Panic.{Outcome, ok, abort, out_of_range}
use yabumi.Eval.Value.{Value, Values, nil, cons, count, merge, MapKey, Entries, no_entries, entry}
use yabumi.Eval.Value.Key.{key_eq, lookup, insert, set_insert}
use yabumi.Stdlib.{some_value, none_value}

abbrev pub option_value : Option Value → Value
option_value none = none_value
option_value (some v) = some_value v

-- `Vec::pop`: the last element, and those before it.
unfoldable pub split_last : Values → Option Value × Values
split_last nil = (none, nil)
split_last (cons v nil) = (some v, nil)
split_last (cons v (cons w vs)) = let (last, front) = split_last (cons w vs) in (last, cons v front)

-- `Vec::insert` and `Vec::remove`, in range.
unfoldable pub insert_at : Values → ℕ → Value → Values
insert_at vs zero x = cons x vs
insert_at nil (suc i) x = cons x nil
insert_at (cons v vs) (suc i) x = cons v (insert_at vs i x)

unfoldable pub remove_at : Values → ℕ → Option Value × Values
remove_at nil i = (none, nil)
remove_at (cons v vs) zero = (some v, vs)
remove_at (cons v vs) (suc i) = let (gone, rest) = remove_at vs i in (gone, cons v rest)

unfoldable pub list_push : Values → Value → Values
list_push self x = merge self (cons x nil)

unfoldable pub list_pop : Values → Value × Values
unfolding split_last
list_pop self = let (last, front) = split_last self in (option_value last, front)

unfoldable pub list_insert : Values → ℤ → Value → Span → Outcome (Value × Values)
unfolding insert_at
list_insert self (pos i) x at =
    if leb i (count self)
    then ok (Value.void, insert_at self i x)
    else abort (out_of_range at (text "list insert"))
list_insert self (negsuc i) x at = abort (out_of_range at (text "list insert"))

abbrev removed : Option Value × Values → Span → Outcome (Value × Values)
removed (some v, vs) at = ok (v, vs)
removed (none, vs) at = abort (out_of_range at (text "list remove"))

unfoldable pub list_remove : Values → ℤ → Span → Outcome (Value × Values)
unfolding remove_at
list_remove self (pos i) at = removed (remove_at self i) at
list_remove self (negsuc i) at = abort (out_of_range at (text "list remove"))

-- `IndexMap::shift_remove`: the entries behind the key move up.
unfoldable pub shift_remove : MapKey → Entries → Entries
shift_remove k no_entries = no_entries
shift_remove k (entry l v es) = if key_eq l k then es else entry l v (shift_remove k es)

unfoldable pub dict_insert : Entries → MapKey → Value → Value × Entries
dict_insert self k v = (option_value (lookup k self), insert k v self)

unfoldable pub dict_remove : Entries → MapKey → Value × Entries
unfolding shift_remove
dict_remove self k = (option_value (lookup k self), shift_remove k self)

unfoldable pub contains : MapKey → List MapKey → Bool
contains k [] = false
contains k (l ∷ ls) = if key_eq l k then true else contains k ls

-- `IndexSet::shift_remove`
unfoldable pub set_shift_remove : MapKey → List MapKey → List MapKey
set_shift_remove k [] = []
set_shift_remove k (l ∷ ls) = if key_eq l k then ls else l ∷ set_shift_remove k ls

-- Whether the key is new, and whether it was there.
unfoldable pub set_insert_value : List MapKey → MapKey → Value × List MapKey
unfolding contains
set_insert_value self k = (Value.bool (if contains k self then false else true), set_insert k self)

unfoldable pub set_remove : List MapKey → MapKey → Value × List MapKey
unfolding contains set_shift_remove
set_remove self k = (Value.bool (contains k self), set_shift_remove k self)
