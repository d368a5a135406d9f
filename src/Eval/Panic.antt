-- ===== src/Eval/Panic.antt =====
-- src/eval/panic.rs: the abort signal and its constructors, and the result of an evaluation step.
use yabumi.Common.{◌++◌, Text, text, ◌≡◌, refl}
use yabumi.Diagnostics.Codes.{
  index_out_of_range, division_by_zero, integer_overflow, assert_failed as assert_failed_code,
  unwrap_failed as unwrap_failed_code, stack_overflow as stack_overflow_code,
  top_level_err_propagation, top_level_none_propagation,
}
use yabumi.Diagnostics.Diagnostic.{Diagnostic}
use yabumi.Diagnostics.Position.{Span}

-- `Abort(pub Diagnostic)`
abbrev pub Abort : Type 0
Abort = Diagnostic

abbrev pub out_of_range : Span → Text → Abort
out_of_range at detail = record {
  code = index_out_of_range;
  span = at;
  message = text "panic: index out of range (" ++ (detail ++ text ")");
}

abbrev pub div_by_zero : Span → Abort
div_by_zero at = record {
  code = division_by_zero;
  span = at;
  message = text "panic: division by zero";
}

abbrev pub overflow : Span → Abort
overflow at = record {
  code = integer_overflow;
  span = at;
  message = text "panic: integer overflow";
}

abbrev pub assert_failed : Span → Text → Abort
assert_failed at detail = record {
  code = assert_failed_code;
  span = at;
  message = text "panic: assertion failed: " ++ detail;
}

abbrev pub unwrap_failed : Span → Text → Abort
unwrap_failed at detail = record {
  code = unwrap_failed_code;
  span = at;
  message = text "panic: " ++ detail;
}

abbrev pub stack_overflow : Span → Abort
stack_overflow at = record {
  code = stack_overflow_code;
  span = at;
  message = text "panic: stack overflow (recursion too deep)";
}

abbrev pub toplevel_err_propagation : Span → Text → Abort
toplevel_err_propagation at error_message = record {
  code = top_level_err_propagation;
  span = at;
  message = text "unwrapped Err via ?: " ++ error_message;
}

abbrev pub toplevel_none_propagation : Span → Abort
toplevel_none_propagation at = record {
  code = top_level_none_propagation;
  span = at;
  message = text "unwrapped None via ?";
}

-- `Result<A, Abort>`. `unreachable` is the program's `unreachable!`: a state that the type checker
-- excludes.
pub data Outcome {ℓ} (A : Type ℓ) : Type ℓ where
  ok : A → Outcome A
  abort : Abort → Outcome A
  unreachable : Outcome A

infixl 5 ◌>>=◌
abbrev pub ◌>>=◌ {ℓ κ} : {A : Type ℓ} {B : Type κ} → Outcome A → (A → Outcome B) → Outcome B
ok a >>= f = f a
abort e >>= f = abort e
unreachable >>= f = unreachable

module _ {ℓ κ} {A : Type ℓ} {B : Type κ} where
  -- A chain that succeeds did so at each of its two steps.
  pub >>=-eq-ok :
      (step : Outcome A) (next : A → Outcome B) {out : B}
      → (step >>= next) ≡ ok out
      → (got : A) × (step ≡ ok got) × (next got ≡ ok out)
  >>=-eq-ok unreachable next h = cc
  >>=-eq-ok (abort fault) next h = cc
  >>=-eq-ok (ok got) next h = (got, refl, h)
