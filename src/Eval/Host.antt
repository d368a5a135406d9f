-- ===== src/Eval/Host.antt =====
-- What the evaluator calls outside of src/eval: the operating system, the text of a float, the source
-- texts, and the parts of src/stdlib that are not modelled (the namespaces and the methods of the
-- builtin types that read only). `World` is the state of all that is outside.
use yabumi.Common.{Option, Text}
use yabumi.Common.Int.{ℤ}
use yabumi.Ast.Pattern.{NodeId, F64}
use yabumi.Diagnostics.Position.{Span}
use yabumi.Types.Namespace.{NamespaceId}
use yabumi.Eval.Float.{FloatOps}
use yabumi.Eval.Panic.{Outcome}
use yabumi.Eval.Value.{Value, Values, CallTarget, Captured}

-- A step that may abort and that may change the world.
abbrev pub Call : Type 0 → Type 0 → Type 0
Call W A = W → Outcome (A × W)

-- What calls a closure: its target, what it captured, and the arguments.
abbrev pub Caller : Type 0 → Type 0
Caller W = CallTarget → Captured → Values → Call W Value

pub record Host : Type 1 where
  pub World : Type 0
  pub floats : FloatOps
  -- what `str` and an f-string make of a float, and what `print` does
  pub float_text : F64 → Text
  pub display_float : F64 → Text
  pub float_from_int : ℤ → F64
  -- the integral part, if it is within `i64`
  pub int_from_float : F64 → Option ℤ
  -- the derived `Debug` of a value
  pub debug_text : Value → Text
  pub source_text : Span → Text
  pub print : Text → World → World
  pub eprint : Text → World → World
  pub shuffle : Values → World → Values × World
  -- a namespace's function, the name, the arguments, the ids of the call and of its first argument
  pub namespace_call : NamespaceId → Text → Values → NodeId → Option NodeId → Call World Value
  -- a method of a builtin type: the id of the receiver, where there is one, the span, the receiver,
  -- the method's name and the arguments
  pub method : Caller World → Option NodeId → Span → Value → Text → Values → Call World Value
