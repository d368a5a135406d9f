-- ===== src/Eval/Call/Builtin.antt =====
-- src/eval/expr.rs and src/eval/call.rs: the steps on values that are already evaluated, of names,
-- fields, elements and builtin functions. What src/stdlib/builtins.rs and primitives.rs do for the
-- builtin functions is here.
use yabumi.Common.{
  ℕ, Bool, true, false, ◌||◌, Option, some, none, if◌then◌else◌, Text, text, text_eq,
}
use yabumi.Common.Int.{pos, negsuc}
use yabumi.Common.TextMap.{get, contains_key}
use yabumi.Ast.Expr.{Expr, ExprKind}
use yabumi.Diagnostics.Position.{Span}
use yabumi.Types.Namespace.{NamespaceId}
use yabumi.Eval.Call.{find_variant, declared}
use yabumi.Eval.Env.{Environment, try_lookup}
use yabumi.Eval.Flow.{Eval, leave, lift}
use yabumi.Eval.Panic.{Outcome, ok, abort, unreachable, out_of_range, assert_failed}
use yabumi.Eval.Program.{Program, field_index_of}
use yabumi.Eval.Value.{Value, Values, nil, nth, MapKey, Entries, CallTarget, no_captured}
use yabumi.Eval.Value.Key.{try_from_value, lookup}

abbrev pub as_bool : Value → Outcome Bool
as_bool (Value.bool b) = ok b
as_bool _ = unreachable

abbrev pub as_str : Value → Outcome Text
as_str (Value.str s) = ok s
as_str _ = unreachable

abbrev pub as_key : Value → Outcome MapKey
as_key v = declared (try_from_value v)

abbrev list_read : Values → Value → Span → Outcome Value
list_read items (Value.int (pos i)) at = elim (nth items i) [
  | some v ↦ ok v
  | none ↦ abort (out_of_range at (text "list index"))
]
list_read items (Value.int (negsuc i)) at = abort (out_of_range at (text "list index"))
list_read items _ at = unreachable

abbrev dict_read : Entries → Option MapKey → Span → Outcome Value
dict_read es none at = unreachable
dict_read es (some k) at = elim (lookup k es) [
  | some v ↦ ok v
  | none ↦ abort (out_of_range at (text "dict key"))
]

-- `eval_index_read` behind the evaluation of the container and of the key.
unfoldable pub index_read : Value → Value → Span → Outcome Value
index_read (Value.list items) key at = list_read items key at
index_read (Value.dict es) key at = dict_read es (try_from_value key) at
index_read _ key at = unreachable

abbrev pub tuple_read : Value → ℕ → Outcome Value
tuple_read (Value.tuple items) i = declared (nth items i)
tuple_read _ i = unreachable

abbrev field_at : Values → Outcome ℕ → Outcome Value
field_at fields (ok i) = declared (nth fields i)
field_at fields (abort fault) = abort fault
field_at fields unreachable = unreachable

unfoldable pub field_read : Program → Value → Text → Outcome Value
field_read program (Value.struct type_name fields) field =
    field_at fields (field_index_of program type_name field)
field_read program _ field = unreachable

-- `math.PI` and `math.E`, the bits of the two constants.
unfoldable pub namespace_const : NamespaceId → Text → Outcome Value
namespace_const NamespaceId.math field =
    if text_eq field (text "PI")
    then ok (Value.float 0x400921FB54442D18)
    else if text_eq field (text "E")
    then ok (Value.float 0x4005BF0A8B145769)
    else unreachable
namespace_const _ field = unreachable

-- The namespace that an expression names, where it is an identifier.
unfoldable pub namespace_of : Program → Expr → Option NamespaceId
namespace_of program (Expr.expr id (ExprKind.ident name) at) = program.resolutions.namespace_ref id
namespace_of program _ = none

abbrev global_value : Program → Text → Outcome Value
global_value program name =
    if contains_key name program.functions
    then ok (Value.closure (CallTarget.function name) no_captured)
    else declared (get name program.consts)

-- A name that is no local variable, in the order of `eval_ident`.
unfoldable pub global_ident : Program → Text → Outcome Value
global_ident program name =
    if text_eq name (text "None")
    then ok (Value.enum (text "Option") 1 name nil)
    else if text_eq name (text "Null")
    then ok (Value.enum (text "Value") 0 name nil)
    else elim (find_variant name program.enums) [
      | some (type_name, i) ↦ ok (Value.enum type_name i name nil)
      | none ↦ global_value program name
    ]

abbrev local_or : Outcome (Option Value) → Outcome Value → Outcome Value
local_or (ok (some v)) global = ok v
local_or (ok none) global = global
local_or (abort fault) global = abort fault
local_or unreachable global = unreachable

unfoldable pub eval_ident : Program → Text → Environment → Outcome Value
unfolding global_ident
eval_ident program name env = local_or (try_lookup name env) (global_ident program name)

-- `expr?` on a value: what `Ok` or `Some` holds, or an early return with the value itself.
unfoldable pub question : {W : Type 0} → Value → Eval W Value
question (Value.enum type_name i variant fields) =
    if text_eq variant (text "Ok") || text_eq variant (text "Some")
    then lift (declared (nth fields 0))
    else if text_eq variant (text "Err") || text_eq variant (text "None")
    then leave (Value.enum type_name i variant fields)
    else lift unreachable
question _ = lift unreachable

-- `is_lvalue_shaped(expr) && lvalue_root_is_local(expr, env)`: the root of a place, and whether it is
-- a variable.
unfoldable pub is_lvalue_shaped : Expr → Bool
is_lvalue_shaped (Expr.expr id (ExprKind.ident name) at) = true
is_lvalue_shaped (Expr.expr id (ExprKind.field_access target field) at) = is_lvalue_shaped target
is_lvalue_shaped (Expr.expr id (ExprKind.tuple_index target i) at) = is_lvalue_shaped target
is_lvalue_shaped (Expr.expr id (ExprKind.index target key) at) = is_lvalue_shaped target
is_lvalue_shaped (Expr.expr id (ExprKind.grouping target) at) = is_lvalue_shaped target
is_lvalue_shaped _ = false

abbrev is_some : Outcome (Option Value) → Outcome Bool
is_some (ok (some v)) = ok true
is_some (ok none) = ok false
is_some (abort fault) = abort fault
is_some unreachable = unreachable

unfoldable pub lvalue_root_is_local : Expr → Environment → Outcome Bool
lvalue_root_is_local (Expr.expr id (ExprKind.ident name) at) env = is_some (try_lookup name env)
lvalue_root_is_local (Expr.expr id (ExprKind.field_access target field) at) env =
    lvalue_root_is_local target env
lvalue_root_is_local (Expr.expr id (ExprKind.tuple_index target i) at) env =
    lvalue_root_is_local target env
lvalue_root_is_local (Expr.expr id (ExprKind.index target key) at) env =
    lvalue_root_is_local target env
lvalue_root_is_local (Expr.expr id (ExprKind.grouping target) at) env =
    lvalue_root_is_local target env
lvalue_root_is_local _ env = ok false

unfoldable pub is_flat_builtin : Text → Bool
is_flat_builtin name =
    text_eq name (text "int")
    || text_eq name (text "float")
    || text_eq name (text "str")
    || text_eq name (text "print")
    || text_eq name (text "eprint")
    || text_eq name (text "assert")
    || text_eq name (text "set")

-- `assert_bare` and `assert_with_message`.
unfoldable pub assert_that : Bool → Text → Span → Outcome Value
assert_that true detail at = ok Value.void
assert_that false detail at = abort (assert_failed at detail)

-- A step on the namespace that an expression names, or another step where it names none.
unfoldable pub on_namespace :
    {W : Type 0} → Option NamespaceId → (NamespaceId → Eval W Value) → Eval W Value → Eval W Value
on_namespace none call other = other
on_namespace (some ns) call other = call ns
