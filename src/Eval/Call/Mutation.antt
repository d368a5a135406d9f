-- ===== src/Eval/Call/Mutation.antt =====
-- src/eval/call.rs: the methods that change their receiver in place.
use yabumi.Common.{
  ◌∷◌, Bool, false, ◌||◌, Option, some, none, if◌then◌else◌, Text, text, text_eq, List, [],
}
use yabumi.Common.TextMap.{get}
use yabumi.Ast.Decl.{FunctionDecl, StructDecl, SelfParam}
use yabumi.Diagnostics.Position.{Span}
use yabumi.Eval.Call.{Calls, find_method}
use yabumi.Eval.Host.{Host, Call}
use yabumi.Eval.Panic.{Outcome, ok, abort, unreachable, ◌>>=◌}
use yabumi.Eval.Program.{Program}
use yabumi.Eval.Value.{Value, Values, nil, cons, merge, MapKey, Entries, no_entries}
use yabumi.Eval.Value.Key.{try_from_value}
use yabumi.Stdlib.Collections.{
  list_push, list_pop, list_insert, list_remove, dict_insert, dict_remove, set_insert_value,
  set_remove,
}

-- `struct` holds the declaration of the `var self` method.
pub data Mutation : Type 0 where
  list dict set : Mutation
  struct : FunctionDecl → Mutation

abbrev mutable_self : Option SelfParam → Bool
mutable_self none = false
mutable_self (some p) = p.mutable

abbrev var_self : Option FunctionDecl → Option Mutation
var_self none = none
var_self (some m) = if mutable_self m.self_param then some (struct m) else none

abbrev struct_mutation : Option StructDecl → Text → Option Mutation
struct_mutation none method = none
struct_mutation (some decl) method = var_self (find_method method decl.methods)

abbrev is_one_of : Text → List Text → Bool
is_one_of name [] = false
is_one_of name (n ∷ ns) = text_eq name n || is_one_of name ns

abbrev list_methods : List Text
list_methods =
    text "push"
    ∷ text "pop"
    ∷ text "insert"
    ∷ text "remove"
    ∷ text "extend"
    ∷ text "clear"
    ∷ text "shuffle"
    ∷ []

abbrev key_methods : List Text
key_methods = text "insert" ∷ text "remove" ∷ text "clear" ∷ []

unfoldable pub classify_mutation : Program → Value → Text → Option Mutation
classify_mutation program (Value.list items) method =
    if is_one_of method list_methods then some list else none
classify_mutation program (Value.dict es) method =
    if is_one_of method key_methods then some dict else none
classify_mutation program (Value.set keys) method =
    if is_one_of method key_methods then some set else none
classify_mutation program (Value.struct type_name fields) method =
    struct_mutation (get type_name program.structs) method
classify_mutation program _ method = none

-- The result and the receiver behind the method.
abbrev with_list : Value × Values → Value × Value
with_list (result, items) = (result, Value.list items)

abbrev with_dict : Value × Entries → Value × Value
with_dict (result, es) = (result, Value.dict es)

abbrev with_set : Value × List MapKey → Value × Value
with_set (result, keys) = (result, Value.set keys)

abbrev list_insert_args : Values → Values → Span → Outcome (Value × Values)
list_insert_args self (cons (Value.int i) (cons x rest)) at = list_insert self i x at
list_insert_args self _ at = unreachable

abbrev list_remove_args : Values → Values → Span → Outcome (Value × Values)
list_remove_args self (cons (Value.int i) rest) at = list_remove self i at
list_remove_args self _ at = unreachable

abbrev list_push_args : Values → Values → Outcome (Value × Values)
list_push_args self (cons x rest) = ok (Value.void, list_push self x)
list_push_args self nil = unreachable

abbrev list_extend_args : Values → Values → Outcome (Value × Values)
list_extend_args self (cons (Value.list other) rest) = ok (Value.void, merge self other)
list_extend_args self _ = unreachable

-- `list_mutate`, but for `shuffle`.
unfoldable pub list_mutate : Values → Text → Values → Span → Outcome (Value × Values)
list_mutate self method args at =
    if text_eq method (text "push")
    then list_push_args self args
    else if text_eq method (text "pop")
    then ok (list_pop self)
    else if text_eq method (text "insert")
    then list_insert_args self args at
    else if text_eq method (text "remove")
    then list_remove_args self args at
    else if text_eq method (text "extend")
    then list_extend_args self args
    else if text_eq method (text "clear")
    then ok (Value.void, nil)
    else unreachable

abbrev as_key : Option MapKey → Outcome MapKey
as_key none = unreachable
as_key (some k) = ok k

abbrev dict_insert_args : Entries → Values → Outcome (Value × Entries)
dict_insert_args self (cons k (cons v rest)) =
    as_key (try_from_value k) >>= λ key. ok (dict_insert self key v)
dict_insert_args self _ = unreachable

abbrev dict_remove_args : Entries → Values → Outcome (Value × Entries)
dict_remove_args self (cons k rest) = as_key (try_from_value k) >>= λ key. ok (dict_remove self key)
dict_remove_args self nil = unreachable

unfoldable pub dict_mutate : Entries → Text → Values → Outcome (Value × Entries)
dict_mutate self method args =
    if text_eq method (text "insert")
    then dict_insert_args self args
    else if text_eq method (text "remove")
    then dict_remove_args self args
    else if text_eq method (text "clear")
    then ok (Value.void, no_entries)
    else unreachable

abbrev set_insert_args : List MapKey → Values → Outcome (Value × List MapKey)
set_insert_args self (cons k rest) =
    as_key (try_from_value k) >>= λ key. ok (set_insert_value self key)
set_insert_args self nil = unreachable

abbrev set_remove_args : List MapKey → Values → Outcome (Value × List MapKey)
set_remove_args self (cons k rest) = as_key (try_from_value k) >>= λ key. ok (set_remove self key)
set_remove_args self nil = unreachable

unfoldable pub set_mutate : List MapKey → Text → Values → Outcome (Value × List MapKey)
set_mutate self method args =
    if text_eq method (text "insert")
    then set_insert_args self args
    else if text_eq method (text "remove")
    then set_remove_args self args
    else if text_eq method (text "clear")
    then ok (Value.void, [])
    else unreachable

module _ (host : Host) (calls : Calls (host.World)) where
  abbrev unchanged : Outcome (Value × Value) → Call (host.World) (Value × Value)
  unchanged (ok out) w = ok (out, w)
  unchanged (abort fault) w = abort fault
  unchanged unreachable w = unreachable

  abbrev shuffled : Values → Call (host.World) (Value × Value)
  shuffled items w =
      let (mixed, w') = host.shuffle items w in ok ((Value.void, Value.list mixed), w')

  abbrev mutate_list : Values → Text → Values → Span → Call (host.World) (Value × Value)
  mutate_list items method args at =
      if text_eq method (text "shuffle")
      then shuffled items
      else unchanged (list_mutate items method args at >>= λ out. ok (with_list out))

  -- The match on the mutation in `eval_mutating_method`: the result and the receiver behind it.
  unfoldable pub mutate :
      Mutation → Value → Text → Values → Span → Call (host.World) (Value × Value)
  unfolding list_mutate dict_mutate set_mutate
  mutate list (Value.list items) method args at = mutate_list items method args at
  mutate dict (Value.dict es) method args at =
      unchanged (dict_mutate es method args >>= λ out. ok (with_dict out))
  mutate set (Value.set keys) method args at =
      unchanged (set_mutate keys method args >>= λ out. ok (with_set out))
  mutate (struct decl) self method args at = calls.method decl self args
  mutate _ self method args at = λ w. unreachable
