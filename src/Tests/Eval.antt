-- ===== src/Tests/Eval.antt =====
-- The theorems of Eval at concrete inputs. The floats are naturals that the operations treat as such.
use yabumi.Common.{
  suc, ℕ, ◌+◌, ◌-◌, ◌*◌, ◌<◌, ◌==◌, ltb, leb, true, false, List, [], ◌∷◌, Option, some, none, Text,
  text, text_eq, ◌≡◌, ◌↔◌, ◌⊎◌, refl, if◌then◌else◌,
}
use yabumi.Common.Int.{
  ℤ, pos, negsuc, abs, ◌+ℤ◌, ◌*ℤ◌, in_i64, i64_min, checked_div, quot, checked_rem, rem,
}
use yabumi.Common.TextMap.{get, contains_key}
use yabumi.Ast.Expr.{add, div, modulo, lt}
use yabumi.Ast.Pattern.{NodeId, SubPattern, Pattern}
use yabumi.Diagnostics.Position.{Span}
use yabumi.Types.Resolutions.{Resolutions, BareIdentKind, unit_variant, binding}
use yabumi.Types.Ty.{Ty, Tys}
use yabumi.Types.Exhaustiveness.{check_exhaustiveness}
use yabumi.Eval.Float.{FloatOps}
use yabumi.Eval.Panic.{◌>>=◌, ok, abort, unreachable, div_by_zero, overflow}
use yabumi.Eval.Program.{Program}
use yabumi.Eval.Value.{MapKeys, Value, MapKey, nil, cons, int, bool, str}
use yabumi.Eval.Value.Key.{to_value, try_from_value, key_eq, try_from_value-eq_iff, key_eq_iff}
use yabumi.Eval.Env.{
  Environment, Scope, bind, write, try_lookup, lookup_mut, push_scope, pop_scope, bind_all,
  snapshot_for_par,
}
use yabumi.Eval.Env.Laws.{
  IsValid, valid, snapshot_for_par-lookup, lookup-bind, lookup-write, pop_scope-bind_all-push_scope,
}
use yabumi.Eval.Lvalue.{PlaceStep, PlacePath, resolve_captured_place, assign_place, assign_name}
use yabumi.Eval.Lvalue.Contract.{assign_place-found, assign_name-lookup}
use yabumi.Eval.Ops.{eval_binary}
use yabumi.Eval.Ops.Arithmetic.{
  SameSide, div_modulo_law, div_outcomes, modulo_abort_iff, eval_binary-in_i64,
}
use yabumi.Eval.Ops.Order.{strs, Comparison, compare_total, less_iff, Before}
use yabumi.Eval.Match.{Bindings, select_arm, try_match_pattern}
use yabumi.Eval.Match.Cases.{named}
use yabumi.Eval.Match.Exhaustive.{check_exhaustiveness-select_arm}
use yabumi.Eval.Match.Gaps.{check_exhaustiveness-null, check_exhaustiveness-some_unit}

abbrev floats : FloatOps
floats = record {
  add = λ a b. a + b;
  sub = λ a b. a - b;
  mul = λ a b. a * b;
  div = λ a b. a;
  neg = λ a. a;
  lt = ltb;
  le = leb;
  eq = λ a b. a == b;
}

abbrev here : Span
here = record { file = 0; start = record { line = 1; col = 1 }; end = record { line = 1; col = 4 } }

-- `x` is the identifier 1, and 2 and 3 name unit variants.
abbrev kinds : NodeId → Option BareIdentKind
kinds id = if id == 1 then some binding else if ltb id 4 then some unit_variant else none

abbrev resolutions : Resolutions
resolutions = record {
  field_index = λ id. none;
  type_args = λ id. none;
  decode_target = λ id. none;
  bare_ident_kind = kinds;
  call_kind = λ id. none;
  ident_def = λ id. none;
  expr_ty = λ id. none;
  implicit_wrap = λ id. none;
  namespace_ref = λ id. none;
  csv_encode_target = λ id. none;
  hof_forwarding = λ id. none;
}

abbrev program : Program
program = record {
  functions = [];
  structs = [];
  enums = [];
  consts = [];
  resolutions = resolutions;
  abort_process_on_par_panic = false;
}

abbrev some_or_none : List Pattern
some_or_none =
    Pattern.variant (text "Some") (SubPattern.bare_ident (text "x") 1 here ∷ []) here
    ∷ Pattern.bare_ident (text "None") 2 here
    ∷ []

abbrev options : Ty
options = Ty.named (text "Option") (Tys.cons Ty.int Tys.nil)

abbrev some_seven : Value
some_seven = Value.enum (text "Option") 0 (text "Some") (cons (int (pos 7)) nil)

check_exhaustiveness-select_arm_example :
    (i : ℕ) × (bs : Bindings) × (select_arm floats program some_or_none some_seven ≡ ok (i, bs))
unfolding check_exhaustiveness try_match_pattern text_eq
check_exhaustiveness-select_arm_example =
    check_exhaustiveness-select_arm floats program options none some_seven some_or_none here
      (named options none (text "Option") 0 (text "Some") (cons (int (pos 7)) nil) refl)
      ((refl, tt), (refl, tt)) (refl, (refl, tt)) refl

check_exhaustiveness-null_example :
    let arms = Pattern.bare_ident (text "Null") 2 here ∷ [] in
    (check_exhaustiveness (Ty.named (text "Value") Tys.nil) none arms here [] ≡ [])
    × (select_arm floats program arms
          (Value.enum (text "Value") 2 (text "Int") (cons (int (pos 7)) nil))
        ≡ unreachable)
unfolding text_eq
check_exhaustiveness-null_example =
    check_exhaustiveness-null floats program Tys.nil 2 here 2 (text "Int") (cons (int (pos 7)) nil)
      refl refl

check_exhaustiveness-some_unit_example :
    let arms =
      Pattern.variant (text "Some") (SubPattern.bare_ident (text "Red") 3 here ∷ []) here
      ∷ Pattern.bare_ident (text "None") 2 here
      ∷ [] in
    let blue = Value.enum (text "Color") 1 (text "Blue") nil in
    (check_exhaustiveness options none arms here [] ≡ [])
    × (select_arm floats program arms (Value.enum (text "Option") 0 (text "Some") (cons blue nil))
        ≡ unreachable)
unfolding text_eq
check_exhaustiveness-some_unit_example =
    check_exhaustiveness-some_unit floats program (Tys.cons Ty.int Tys.nil) (text "Red") 3 2 here
      (text "Color") 1 (text "Blue") nil refl refl refl

-- -7 / 2 is -3 and -7 % 2 is -1.
div_modulo_law_example :
    (negsuc 2 *ℤ pos 2 +ℤ negsuc 0 ≡ negsuc 6)
    × (abs (negsuc 0) < abs (pos 2))
    × SameSide (negsuc 6) (negsuc 0)
unfolding eval_binary checked_div quot checked_rem rem
div_modulo_law_example = div_modulo_law floats (negsuc 6) (pos 2) here refl refl

div_outcomes_example :
    let run = eval_binary floats div (int i64_min) (int (negsuc 0)) here in
    ((negsuc 0 ≡ pos 0) × (run ≡ abort (div_by_zero here)))
    ⊎ ((i64_min ≡ i64_min) × (negsuc 0 ≡ negsuc 0) × (run ≡ abort (overflow here)))
    ⊎ ((q : ℤ) × (in_i64 q ≡ true) × (run ≡ ok (int q)))
div_outcomes_example = div_outcomes floats i64_min (negsuc 0) here refl

modulo_abort_iff_example :
    (eval_binary floats modulo (int i64_min) (int (negsuc 0)) here ≡ abort (div_by_zero here))
    ↔ ((negsuc 0 ≡ pos 0) ⊎ ((i64_min ≡ i64_min) × (negsuc 0 ≡ negsuc 0)))
modulo_abort_iff_example = modulo_abort_iff floats i64_min (negsuc 0) here

eval_binary-in_i64_example : in_i64 (pos 12) ≡ true
unfolding eval_binary ◌+ℤ◌
eval_binary-in_i64_example = eval_binary-in_i64 floats (pos 5) (pos 7) here add refl refl

compare_total_example : Comparison floats (str (text "ab")) (str (text "b")) here
compare_total_example = compare_total floats here (strs (text "ab") (text "b"))

less_iff_example :
    ((a b : ℤ)
      → (eval_binary floats lt (int a) (int b) here ≡ ok (bool true))
        ↔ ((k : ℕ) × (b ≡ a +ℤ pos (suc k))))
    × ((s t : Text) → (eval_binary floats lt (str s) (str t) here ≡ ok (bool true)) ↔ Before s t)
less_iff_example = less_iff floats here

abbrev outer : Scope
outer = (text "x", int (pos 1)) ∷ (text "y", int (pos 2)) ∷ []

abbrev inner : Scope
inner = (text "x", int (pos 3)) ∷ []

abbrev env : Environment
env = record { frames = record { scopes = inner ∷ outer ∷ [] } ∷ [] }

env-IsValid : IsValid env
unfolding contains_key text_eq
env-IsValid = valid inner (outer ∷ []) [] (refl, tt) ((refl, (refl, tt)), tt) tt

snapshot_for_par-lookup_example :
    (snapshot : Environment) × (snapshot_for_par env ≡ ok snapshot)
    × IsValid snapshot
    × ((name : Text) → try_lookup name snapshot ≡ try_lookup name env)
snapshot_for_par-lookup_example = snapshot_for_par-lookup env env-IsValid

lookup-bind_example :
    (after : Environment) × (bind (text "y") (int (pos 4)) env ≡ ok after)
    × IsValid after
    × ((j : Text)
        → try_lookup j after
          ≡ (if text_eq (text "y") j then ok (some (int (pos 4))) else try_lookup j env))
lookup-bind_example = lookup-bind env (text "y") (int (pos 4)) env-IsValid

lookup-write_example :
    (after : Environment) × (write (text "y") (int (pos 4)) env ≡ ok after)
    × IsValid after
    × ((j : Text)
        → try_lookup j after
          ≡ (if text_eq (text "y") j then ok (some (int (pos 4))) else try_lookup j env))
unfolding lookup_mut text_eq get
lookup-write_example = lookup-write env (text "y") (int (pos 4)) env-IsValid refl

pop_scope-bind_all-push_scope_example :
    (push_scope env >>= λ opened. bind_all inner opened >>= λ filled. pop_scope filled) ≡ ok env
pop_scope-bind_all-push_scope_example = pop_scope-bind_all-push_scope env inner env-IsValid

abbrev key : MapKey
key = MapKey.tuple (
    MapKeys.cons_key (MapKey.int (pos 1))
      (MapKeys.cons_key (MapKey.str (text "a")) MapKeys.no_keys))

abbrev pair : Value
pair = Value.tuple (cons (int (pos 1)) (cons (str (text "a")) nil))

try_from_value-eq_iff_example : (try_from_value pair ≡ some key) ↔ (to_value key ≡ pair)
try_from_value-eq_iff_example = try_from_value-eq_iff pair key

key_eq_iff_example : (key_eq key (MapKey.bool true) ≡ true) ↔ (key ≡ MapKey.bool true)
key_eq_iff_example = key_eq_iff key (MapKey.bool true)

-- A list in the outer scope, and the place of its second element.
abbrev listed : Environment
listed = record {
  frames =
      record {
        scopes =
            [] ∷ ((text "xs", Value.list (cons (int (pos 1)) (cons (int (pos 2)) nil))) ∷ []) ∷ [];
      }
      ∷ [];
}

listed-IsValid : IsValid listed
unfolding contains_key
listed-IsValid =
    valid [] (((text "xs", Value.list (cons (int (pos 1)) (cons (int (pos 2)) nil))) ∷ []) ∷ []) []
      tt ((refl, tt), tt) tt

abbrev second : PlacePath
second = record { root = text "xs"; steps = PlaceStep.index (int (pos 1)) here ∷ [] }

assign_place-found_example :
    (after : Environment) × (assign_place second (int (pos 9)) listed program false ≡ ok after)
    × IsValid after
    × (resolve_captured_place second after program false
        ≡ ok (record {
          here = int (pos 9);
          put = λ w. Value.list (cons (int (pos 1)) (cons w nil));
        }))
    × ((j : Text) → text_eq second.root j ≡ false → try_lookup j after ≡ try_lookup j listed)
unfolding resolve_captured_place lookup_mut text_eq get
assign_place-found_example =
    assign_place-found second (int (pos 9)) listed program false listed-IsValid refl

assign_name-lookup_example :
    (after : Environment) × (assign_name (text "n") (int (pos 5)) env ≡ ok after)
    × IsValid after
    × ((j : Text)
        → try_lookup j after
          ≡ (if text_eq (text "n") j then ok (some (int (pos 5))) else try_lookup j env))
assign_name-lookup_example = assign_name-lookup (text "n") (int (pos 5)) env env-IsValid
