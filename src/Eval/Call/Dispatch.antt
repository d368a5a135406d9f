-- ===== src/Eval/Call/Dispatch.antt =====
-- src/eval/call.rs: the calls of the builtin functions, of the methods that only read, and of the
-- stages of a pipe. The texts that src/stdlib/builtins.rs and primitives.rs make of values are here.
use yabumi.Common.{ℕ, Bool, [], Option, some, none, if◌then◌else◌, Text, text, text_eq}
use yabumi.Common.Int.{ℤ}
use yabumi.Common.Decimal.{int_to_string}
use yabumi.Common.TextMap.{get}
use yabumi.Ast.Decl.{FunctionDecl, StructDecl}
use yabumi.Ast.Expr.{Expr, ExprKind}
use yabumi.Ast.Pattern.{NodeId}
use yabumi.Diagnostics.Position.{Span}
use yabumi.Eval.Call.{Calls, find_method, call_named, call_closure}
use yabumi.Eval.Call.Builtin.{as_bool, assert_that, is_flat_builtin, on_namespace}
use yabumi.Eval.Env.{try_lookup}
use yabumi.Eval.Flow.{Eval, lift, asks, does, ◌>>=◌}
use yabumi.Eval.Host.{Host, Call}
use yabumi.Eval.Panic.{Outcome, ok, abort, unreachable, overflow}
use yabumi.Eval.Program.{Program}
use yabumi.Eval.Value.{Value, Values, nil, cons}

module _ (host : Host) where
  -- `fstring_value_to_str`, with `str_from_value`.
  unfoldable pub fstring_text : Value → Outcome Text
  fstring_text (Value.str s) = ok s
  fstring_text (Value.int n) = ok (int_to_string n)
  fstring_text (Value.float x) = ok (host.float_text x)
  fstring_text (Value.bool b) = ok (if b then text "true" else text "false")
  fstring_text _ = unreachable

  -- `str_from_value`: a str has no place here.
  unfoldable pub str_from_value : Value → Outcome Text
  unfolding fstring_text
  str_from_value (Value.str s) = unreachable
  str_from_value v = fstring_text v

  -- `display_primitive`, what `print` writes.
  unfoldable pub display_primitive : Value → Outcome Text
  display_primitive (Value.str s) = ok s
  display_primitive (Value.int n) = ok (int_to_string n)
  display_primitive (Value.float x) = ok (host.display_float x)
  display_primitive (Value.bool b) = ok (if b then text "true" else text "false")
  display_primitive _ = unreachable

  abbrev answer {ℓ} : {A : Type ℓ} → Outcome A → (A → Value) → Call (host.World) Value
  answer (ok a) make w = ok (make a, w)
  answer (abort fault) make w = abort fault
  answer unreachable make w = unreachable

  abbrev wrote : (Text → host.World → host.World) → Outcome Text → Call (host.World) Value
  wrote write (ok s) w = ok (Value.void, write s w)
  wrote write (abort fault) w = abort fault
  wrote write unreachable w = unreachable

  abbrev int_of : Value → Span → Outcome ℤ
  int_of (Value.float x) at = elim (host.int_from_float x) [
    | some n ↦ ok n
    | none ↦ abort (overflow at)
  ]
  int_of _ at = unreachable

  abbrev float_of : Value → Outcome ℕ
  float_of (Value.int n) = ok (host.float_from_int n)
  float_of _ = unreachable

  -- `int`, `float`, `str`, `print` and `eprint` on the argument's value.
  unfoldable pub flat_builtin : Text → Value → Span → Call (host.World) Value
  unfolding str_from_value display_primitive
  flat_builtin name v at =
      if text_eq name (text "int")
      then answer (int_of v at) Value.int
      else if text_eq name (text "float")
      then answer (float_of v) Value.float
      else if text_eq name (text "str")
      then answer (str_from_value v) Value.str
      else if text_eq name (text "print")
      then wrote (host.print) (display_primitive v)
      else if text_eq name (text "eprint")
      then wrote (host.eprint) (display_primitive v)
      else λ w. unreachable

  abbrev assert_piped : Outcome Bool → Span → Outcome Value
  assert_piped (ok b) at = assert_that b (host.source_text at) at
  assert_piped (abort fault) at = abort fault
  assert_piped unreachable at = unreachable

  abbrev flat_on_first : Text → Values → Span → Call (host.World) Value
  flat_on_first name nil at w = unreachable
  flat_on_first name (cons v vs) at w =
      if text_eq name (text "assert")
      then answer (assert_piped (as_bool v) at) (λ out. out) w
      else flat_builtin name v at w

  unfoldable pub invoke_flat_builtin_values : Text → Values → Span → Call (host.World) Value
  unfolding flat_builtin assert_that
  invoke_flat_builtin_values name args at =
      if text_eq name (text "set") then (λ w. ok (Value.set [], w)) else flat_on_first name args at

  module _ (program : Program) (calls : Calls (host.World)) where
    abbrev result_of : Outcome ((Value × Value) × host.World) → Outcome (Value × host.World)
    result_of (ok ((result, self), w)) = ok (result, w)
    result_of (abort fault) = abort fault
    result_of unreachable = unreachable

    abbrev method_of : Option StructDecl → Text → Option FunctionDecl
    method_of none method = none
    method_of (some decl) method = find_method method decl.methods

    abbrev call_method : Option FunctionDecl → Value → Values → Call (host.World) Value
    call_method none self args w = unreachable
    call_method (some m) self args w = result_of (calls.method m self args w)

    -- `dispatch_readonly`: a struct's own method, whose `self` is dropped, or a builtin type's.
    unfoldable pub dispatch_readonly :
        Option NodeId → Span → Value → Text → Values → Call (host.World) Value
    dispatch_readonly receiver at (Value.struct type_name fields) method args =
        call_method (method_of (get type_name program.structs) method)
          (Value.struct type_name fields) args
    dispatch_readonly receiver at v method args =
        host.method (call_closure program calls) receiver at v method args

    abbrev call_local : Option Value → Text → Values → Call (host.World) Value
    call_local (some (Value.closure target held)) name args =
        call_closure program calls target held args
    call_local _ name args = call_named program calls name args

    -- `invoke_pipe_call`: a namespace's function, a builtin function, a closure that a variable holds,
    -- or a declared function.
    unfoldable pub invoke_pipe_call : Expr → Values → Eval (host.World) Value
    unfolding invoke_flat_builtin_values on_namespace
    invoke_pipe_call
          (Expr.expr id (ExprKind.field_access (Expr.expr tid (ExprKind.ident n) tat) field) at)
          args =
        on_namespace (program.resolutions.namespace_ref tid)
          (λ ns. does (host.namespace_call ns field args id none)) (lift unreachable)
    invoke_pipe_call (Expr.expr id (ExprKind.ident name) at) args =
        if is_flat_builtin name
        then does (invoke_flat_builtin_values name args at)
        else (asks (try_lookup name) >>= λ found. does (call_local found name args))
    invoke_pipe_call _ args = lift unreachable
