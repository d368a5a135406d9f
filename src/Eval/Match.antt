-- ===== src/Eval/Match.antt =====
-- src/eval/expr.rs: `try_match_pattern` and the loop of `eval_match` over the arms.
pub mod Cases
pub mod Exhaustive
pub mod Gaps
use yabumi.Common.{
  ℕ, suc, ◌==◌, Bool, true, false, List, [], ◌∷◌, ◌++◌, Option, some, none, Text, text_eq,
  if◌then◌else◌,
}
use yabumi.Common.Int.{eqb_ℤ}
use yabumi.Ast.Pattern.{LiteralPat, SubPattern, Pattern, NodeId}
use yabumi.Types.Resolutions.{BareIdentKind, unit_variant, binding}
use yabumi.Eval.Float.{FloatOps}
use yabumi.Eval.Panic.{Outcome, ok, unreachable, ◌>>=◌}
use yabumi.Eval.Ops.Equality.{bool_eq}
use yabumi.Eval.Program.{Program}
use yabumi.Eval.Value.{Value, Values, nil, cons}

-- `Vec<(Arc<str>, Value)>`
abbrev pub Bindings : Type 0
Bindings = List (Text × Value)

-- `test.then(Vec::new)`
abbrev when : Bool → Option Bindings
when true = some []
when false = none

-- A unit variant's name against a value, which is an enum.
abbrev match_unit : Text → Value → Outcome (Option Bindings)
match_unit name (Value.enum tn i variant fields) = ok (when (text_eq variant name))
match_unit name _ = unreachable

abbrev match_bare : Option BareIdentKind → Text → Value → Outcome (Option Bindings)
match_bare (some unit_variant) name v = match_unit name v
match_bare (some binding) name v = ok (some ((name, v) ∷ []))
match_bare none name v = ok (some ((name, v) ∷ []))

-- `bindings.extend(first?)`, and then the rest of the loop.
abbrev extend : Outcome (Option Bindings) → Outcome (Option Bindings) → Outcome (Option Bindings)
extend (ok (some bs)) (ok (some cs)) = ok (some (bs ++ cs))
extend (ok (some bs)) rest = rest
extend first rest = first

module _ (f : FloatOps) (program : Program) where
  unfoldable pub literal_matches : LiteralPat → Value → Outcome Bool
  literal_matches (LiteralPat.int n) (Value.int m) = ok (eqb_ℤ n m)
  literal_matches (LiteralPat.float n) (Value.float m) = ok (f.eq n m)
  literal_matches (LiteralPat.bool a) (Value.bool b) = ok (bool_eq a b)
  literal_matches (LiteralPat.str a) (Value.str b) = ok (text_eq a b)
  literal_matches _ _ = unreachable

  unfoldable pub match_sub_pattern : SubPattern → Value → Outcome (Option Bindings)
  unfolding literal_matches
  match_sub_pattern (SubPattern.wildcard at) v = ok (some [])
  match_sub_pattern (SubPattern.literal lit at) v = literal_matches lit v >>= λ b. ok (when b)
  match_sub_pattern (SubPattern.bare_ident name id at) v =
      match_bare (program.resolutions.bare_ident_kind id) name v

  -- The loop over `fields.iter().zip(values)`.
  unfoldable pub match_fields : List SubPattern → Values → Outcome (Option Bindings)
  unfolding match_sub_pattern
  match_fields [] vs = ok (some [])
  match_fields (s ∷ ss) nil = ok (some [])
  match_fields (s ∷ ss) (cons v vs) = extend (match_sub_pattern s v) (match_fields ss vs)

  unfoldable pub try_match_pattern : Pattern → Value → Outcome (Option Bindings)
  unfolding match_fields
  try_match_pattern (Pattern.wildcard at) v = ok (some [])
  try_match_pattern (Pattern.literal lit at) v = literal_matches lit v >>= λ b. ok (when b)
  try_match_pattern (Pattern.bare_ident name id at) v =
      match_bare (program.resolutions.bare_ident_kind id) name v
  try_match_pattern (Pattern.variant name subs at) (Value.enum tn i variant fields) =
      if text_eq variant name then match_fields subs fields else ok none
  try_match_pattern (Pattern.variant name subs at) _ = unreachable
  try_match_pattern (Pattern.tuple subs at) (Value.tuple items) = match_fields subs items
  try_match_pattern (Pattern.tuple subs at) _ = unreachable

  -- The arm that `eval_match` takes, with its bindings. Behind the last arm is its `unreachable!`.
  unfoldable pub select_arm : List Pattern → Value → Outcome (ℕ × Bindings)
  unfolding try_match_pattern
  select_arm [] v = unreachable
  select_arm (p ∷ ps) v = try_match_pattern p v >>= λ found. elim found [
    | some bindings ↦ ok (0, bindings)
    | none ↦ select_arm ps v >>= λ (i, bindings). ok (suc i, bindings)
  ]
