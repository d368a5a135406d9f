-- ===== src/Eval/Program.antt =====
-- src/eval/env.rs: `Program`, and src/eval/call.rs: the look-ups in it by name. The source texts
-- (`sources`) and the spans of constants serve the display of diagnostics and are left out.
use yabumi.Common.{
  ℕ, suc, Bool, true, false, List, [], ◌∷◌, Option, some, none, if◌then◌else◌, Text, text, text_eq,
}
use yabumi.Common.TextMap.{TextMap, get}
use yabumi.Ast.Decl.{FunctionDecl, StructDecl, EnumDecl, Param}
use yabumi.Types.Resolutions.{Resolutions}
use yabumi.Eval.Panic.{Outcome, ok, unreachable}
use yabumi.Eval.Value.{Value}

pub record Program : Type 0 where
  pub functions : TextMap FunctionDecl
  pub structs : TextMap StructDecl
  pub enums : TextMap EnumDecl
  pub consts : TextMap Value
  pub resolutions : Resolutions
  pub abort_process_on_par_panic : Bool

unfoldable pub builtin_struct_field_names : Text → Option (List Text)
builtin_struct_field_names name =
    if text_eq name (text "Error")
    then some (text "kind" ∷ text "message" ∷ text "cause" ∷ [])
    else if text_eq name (text "Response")
    then some (text "status" ∷ text "headers" ∷ text "body" ∷ [])
    else if text_eq name (text "HttpOptions")
    then some (text "headers" ∷ text "timeout_ms" ∷ [])
    else if text_eq name (text "ProcOutput")
    then some (text "stdout" ∷ text "stderr" ∷ text "exit_code" ∷ [])
    else none

-- `iter().position(|n| n == name)`
unfoldable pub position_of : Text → List Text → Outcome ℕ
position_of name [] = unreachable
position_of name (n ∷ ns) = elim (text_eq n name) [
  | true ↦ ok 0
  | false ↦ next (position_of name ns)
]
  where
    next : Outcome ℕ → Outcome ℕ
    next (ok i) = ok (suc i)
    next (Outcome.abort a) = Outcome.abort a
    next unreachable = unreachable

abbrev pub param_names : List Param → List Text
param_names [] = []
param_names (p ∷ ps) = p.name ∷ param_names ps

abbrev declared_index : Option StructDecl → Text → Outcome ℕ
declared_index none field = unreachable
declared_index (some decl) field = position_of field (param_names decl.fields)

unfoldable pub field_index_of : Program → Text → Text → Outcome ℕ
unfolding position_of
field_index_of program type_name field = elim (builtin_struct_field_names type_name) [
  | some names ↦ position_of field names
  | none ↦ declared_index (get type_name program.structs) field
]
