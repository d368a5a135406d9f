-- ===== src/Eval/Call.antt =====
-- src/eval/call.rs: calls and methods on values that are already evaluated. What runs a body is a
-- parameter, `Calls`, which Eval.Run fills.
pub mod Builtin
pub mod Mutation
pub mod Dispatch
use yabumi.Common.{
  ℕ, suc, Bool, true, false, List, [], ◌∷◌, Option, some, none, if◌then◌else◌, Text, text, text_eq,
}
use mathlib.Core.Option
use yabumi.Common.TextMap.{TextMap, get, insert}
use yabumi.Ast.Decl.{FunctionDecl, StructDecl, EnumDecl, EnumVariant, Param}
use yabumi.Ast.Expr.{Expr, LambdaParam}
use yabumi.Ast.Pattern.{NodeId}
use yabumi.Diagnostics.Position.{Span}
use yabumi.Eval.Env.{Environment, Scope}
use yabumi.Eval.Flow.{Flow}
use yabumi.Eval.Host.{Host, Call, Caller}
use yabumi.Eval.Panic.{Outcome, ok, unreachable, ◌>>=◌}
use yabumi.Eval.Program.{Program, param_names, builtin_struct_field_names}
use yabumi.Eval.Value.{
  Value, Values, nil, cons, CallTarget, Captured, no_captured, capture, LambdaBody,
}

-- The result of a function; of a method, with the final `self`; of a lambda; and of a branch that a
-- worker thread evaluates in an environment of its own.
pub record Calls (W : Type 0) : Type 0 where
  pub function : FunctionDecl → Values → Call W Value
  pub method : FunctionDecl → Value → Values → Call W (Value × Value)
  pub lambda : LambdaBody → Captured → Values → Call W Value
  pub worker : Expr → Environment → Call W (Flow Value)

-- `names.zip(values)`, put into a map in order.
unfoldable pub bind_names : List Text → Values → Scope → Scope
bind_names [] vs scope = scope
bind_names (n ∷ ns) nil scope = scope
bind_names (n ∷ ns) (cons v vs) scope = bind_names ns vs (insert n v scope)

unfoldable pub bind_params : FunctionDecl → Values → Scope
unfolding bind_names
bind_params decl args = bind_names (param_names decl.params) args []

abbrev pub lambda_names : List LambdaParam → List Text
lambda_names [] = []
lambda_names (p ∷ ps) = p.name ∷ lambda_names ps

-- What a lambda captured, as the scope of its call, and a scope as what a lambda captures.
unfoldable pub captured_scope : Captured → Scope → Scope
captured_scope no_captured scope = scope
captured_scope (capture n v rest) scope = captured_scope rest (insert n v scope)

unfoldable pub captured_of : Scope → Captured
captured_of [] = no_captured
captured_of ((n, v) ∷ scope) = capture n v (captured_of scope)

unfoldable pub lambda_scope : LambdaBody → Captured → Values → Scope
unfolding bind_names captured_scope
lambda_scope body held args = bind_names (lambda_names body.params) args (captured_scope held [])

-- A declaration that the type checker has seen to be there.
abbrev pub declared {ℓ} : {A : Type ℓ} → Option A → Outcome A
declared none = unreachable
declared (some decl) = ok decl

abbrev pub find_method : Text → List FunctionDecl → Option FunctionDecl
find_method name [] = none
find_method name (m ∷ ms) = if text_eq m.name name then some m else find_method name ms

module _ {W : Type 0} (program : Program) (calls : Calls W) where
  abbrev call_declared : Option FunctionDecl → Values → Call W Value
  call_declared none args w = unreachable
  call_declared (some decl) args w = calls.function decl args w

  unfoldable pub call_named : Text → Values → Call W Value
  call_named name args = call_declared (get name program.functions) args

  unfoldable pub call_closure : CallTarget → Captured → Values → Call W Value
  unfolding call_named
  call_closure (CallTarget.function name) held args = call_named name args
  call_closure (CallTarget.lambda body) held args = calls.lambda body held args
  call_closure (CallTarget.builtin id) held args = λ w. unreachable

-- `iter().position(|v| v.name == name)`
abbrev variant_position : Text → List EnumVariant → Option ℕ
variant_position name [] = none
variant_position name (v ∷ vs) =
    if text_eq v.name name then some 0 else Option.map suc (variant_position name vs)

abbrev found_in : EnumDecl → Option ℕ → Option (Text × ℕ) → Option (Text × ℕ)
found_in decl (some i) rest = some (decl.name, i)
found_in decl none rest = rest

-- `find_variant_in_program`: the enum that has the variant, and the variant's index in it.
unfoldable pub find_variant : Text → TextMap EnumDecl → Option (Text × ℕ)
find_variant name [] = none
find_variant name ((k, decl) ∷ enums) =
    found_in decl (variant_position name decl.variants) (find_variant name enums)

unfoldable pub builtin_variant_info : Text → Option (Text × ℕ)
builtin_variant_info name =
    if text_eq name (text "Ok")
    then some (text "Result", 0)
    else if text_eq name (text "Err")
    then some (text "Result", 1)
    else if text_eq name (text "Some")
    then some (text "Option", 0)
    else if text_eq name (text "Bool")
    then some (text "Value", 1)
    else if text_eq name (text "Int")
    then some (text "Value", 2)
    else if text_eq name (text "Float")
    then some (text "Value", 3)
    else if text_eq name (text "Str")
    then some (text "Value", 4)
    else if text_eq name (text "List")
    then some (text "Value", 5)
    else if text_eq name (text "Dict")
    then some (text "Value", 6)
    else none

-- The enum and the index of the variant that a call constructs.
unfoldable pub variant_of : Program → Text → Outcome (Text × ℕ)
unfolding builtin_variant_info find_variant
variant_of program name = elim (builtin_variant_info name) [
  | some info ↦ ok info
  | none ↦ declared (find_variant name program.enums)
]

-- The fields of the struct that a call constructs.
unfoldable pub field_names_of : Program → Text → Outcome (List Text)
field_names_of program name = elim (builtin_struct_field_names name) [
  | some names ↦ ok names
  | none ↦
      declared (Option.map (λ (d : StructDecl). param_names d.fields) (get name program.structs))
]

abbrev pub empty_slots : List Text → List (Option Value)
empty_slots [] = []
empty_slots (n ∷ ns) = none ∷ empty_slots ns

-- Every field has been supplied.
unfoldable pub filled : List (Option Value) → Outcome Values
filled [] = ok nil
filled (none ∷ slots) = unreachable
filled (some v ∷ slots) = filled slots >>= λ vs. ok (cons v vs)
