-- ===== src/Eval/Lvalue.antt =====
-- src/eval/lvalue.rs: the place that an assignment or a mutating method writes. A `&mut Value` into
-- the root variable's value is the value found there and the root for each value put in its stead.
pub mod Laws
pub mod Contract
use yabumi.Common.{
  if◌then◌else◌, ℕ, Bool, true, false, ◌&&◌, List, [], ◌∷◌, Option, some, none, Text, text,
}
use yabumi.Common.Int.{pos, negsuc}
use yabumi.Diagnostics.Position.{Span}
use yabumi.Types.Resolutions.{WrapKind}
use yabumi.Eval.Env.{Environment, lookup_mut, try_lookup, write, bind}
use yabumi.Eval.Panic.{Outcome, ok, abort, unreachable, ◌>>=◌, out_of_range}
use yabumi.Eval.Program.{Program, field_index_of}
use yabumi.Eval.Value.{Value, Values, MapKey, Entries, nth, replace}
use yabumi.Eval.Value.Key.{try_from_value, lookup, insert}

pub data PlaceStep : Type 0 where
  field : Text → PlaceStep
  tuple_index : ℕ → Span → PlaceStep
  index : Value → Span → PlaceStep

pub record PlacePath : Type 0 where
  pub root : Text
  pub steps : List PlaceStep

pub record Place : Type 0 where
  pub here : Value
  pub put : Value → Value

-- The place of a value that is there, by what a write gives, or a fault.
abbrev pub place_or : Option Value → (Value → Value) → Outcome Place → Outcome Place
place_or (some v) put fault = ok (record { here = v; put = put })
place_or none put fault = fault

-- An element of a vector, of which `make` makes the value.
abbrev pub element : (Values → Value) → Values → ℕ → Outcome Place → Outcome Place
element make vs i fault = place_or (nth vs i) (λ w. make (replace vs i w)) fault

abbrev list_element : Values → Value → Span → Outcome Place
list_element items (Value.int (pos i)) at =
    element Value.list items i (abort (out_of_range at (text "list index")))
list_element items (Value.int (negsuc i)) at = abort (out_of_range at (text "list index"))
list_element items _ at = unreachable

-- The entry of a key, which `insert_key` has put in with `void` where it is missing.
abbrev pub entry_at : Entries → MapKey → Bool → Span → Outcome Place
entry_at es k insert_key at =
    let put : Value → Value = λ w. Value.dict (insert k w es) in
    place_or (lookup k es) put (
      if insert_key
      then ok (record { here = Value.void; put = put })
      else abort (out_of_range at (text "dict key")))

abbrev pub dict_entry : Entries → Option MapKey → Bool → Span → Outcome Place
dict_entry es none insert_key at = unreachable
dict_entry es (some k) insert_key at = entry_at es k insert_key at

-- One step of `resolve_steps`: the match on the step.
unfoldable pub resolve_step : Program → Value → PlaceStep → Bool → Outcome Place
resolve_step program (Value.struct type_name fields) (field name) insert_key =
    field_index_of program type_name name >>= λ i.
    element (Value.struct type_name) fields i unreachable
resolve_step program (Value.tuple items) (tuple_index i at) insert_key =
    element Value.tuple items i (abort (out_of_range at (text "tuple index")))
resolve_step program (Value.list items) (index key at) insert_key = list_element items key at
resolve_step program (Value.dict es) (index key at) insert_key =
    dict_entry es (try_from_value key) insert_key at
resolve_step program _ _ insert_key = unreachable

abbrev pub is_last : List PlaceStep → Bool
is_last [] = true
is_last (s ∷ ss) = false

unfoldable pub resolve_steps : Program → Value → List PlaceStep → Bool → Outcome Place
unfolding resolve_step
resolve_steps program value [] allow_final_dict_insert = ok (record { here = value; put = λ w. w })
resolve_steps program value (s ∷ remaining) allow_final_dict_insert =
    resolve_step program value s (is_last remaining && allow_final_dict_insert) >>= λ child.
    resolve_steps program child.here remaining allow_final_dict_insert >>= λ inner.
    ok (record { here = inner.here; put = λ w. child.put (inner.put w) })

unfoldable pub resolve_captured_place : PlacePath → Environment → Program → Bool → Outcome Place
unfolding resolve_steps
resolve_captured_place path env program allow_final_dict_insert =
    lookup_mut path.root env >>= λ root.
    resolve_steps program root path.steps allow_final_dict_insert

-- `*resolve_captured_place(path, env, ..)? = value`, as the assignments of src/eval/stmt.rs do.
unfoldable pub assign_place : PlacePath → Value → Environment → Program → Bool → Outcome Environment
unfolding resolve_captured_place
assign_place path value env program allow_final_dict_insert =
    resolve_captured_place path env program allow_final_dict_insert >>= λ place.
    write path.root (place.put value) env

-- `eval_name_assign` of src/eval/stmt.rs behind the evaluation of its right-hand side: a name that is
-- visible in the frame is written where it is bound, any other is bound in the innermost scope.
unfoldable pub assign_name : Text → Value → Environment → Outcome Environment
assign_name name v env = try_lookup name env >>= λ found. elim found [
  | some _ ↦ write name v env
  | none ↦ bind name v env
]

-- The implicit `Ok` and `Some` of `eval_return`, on the value that is returned.
abbrev pub wrap_enum : Value → Text → Text → ℕ → Value
wrap_enum inner type_name variant_name variant_index =
    Value.enum type_name variant_index variant_name (Values.cons inner Values.nil)

unfoldable pub wrap_return : Option WrapKind → Value → Value
wrap_return (some WrapKind.ok) v = wrap_enum v (text "Result") (text "Ok") 0
wrap_return (some WrapKind.some) v = wrap_enum v (text "Option") (text "Some") 0
wrap_return none v = v
