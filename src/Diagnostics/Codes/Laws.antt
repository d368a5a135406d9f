-- ===== src/Diagnostics/Codes/Laws.antt =====
-- Codes are stable identifiers: the number, and so the text shown, determines the code.
use yabumi.Common.{
  ℕ, ◌+◌, ◌*◌, ◌<◌, ◌==◌, if◌then◌else◌, Option, some, none, ◌≡◌, refl, arith, Text, get_or, ◌-◌,
}
use yabumi.Diagnostics.Codes.{ErrorCode, numeric, display}

-- The code of a number, if it is one.
of_numeric : ℕ → Option ErrorCode
of_numeric n =
    if n == 1
    then some ErrorCode.tab_character
    else if n == 2
    then some ErrorCode.unterminated_string
    else if n == 3
    then some ErrorCode.invalid_escape
    else if n == 4
    then some ErrorCode.invalid_number_literal
    else if n == 5
    then some ErrorCode.unknown_token
    else if n == 501
    then some ErrorCode.indent_mismatch
    else if n == 502
    then some ErrorCode.unexpected_token
    else if n == 503
    then some ErrorCode.pipe_placeholder_missing
    else if n == 1001
    then some ErrorCode.duplicate_name
    else if n == 1002
    then some ErrorCode.missing_param_annotation
    else if n == 1003
    then some ErrorCode.uninferable_type
    else if n == 1010
    then some ErrorCode.collection_element_type_mismatch
    else if n == 1011
    then some ErrorCode.dict_key_type_not_allowed
    else if n == 1012
    then some ErrorCode.set_element_type_not_allowed
    else if n == 1013
    then some ErrorCode.unsupported_operator_for_type_param
    else if n == 1020
    then some ErrorCode.branch_type_mismatch
    else if n == 1021
    then some ErrorCode.non_exhaustive_match
    else if n == 1040
    then some ErrorCode.unused_result
    else if n == 1050
    then some ErrorCode.int_float_mixed
    else if n == 1051
    then some ErrorCode.unorderable_type
    else if n == 1060
    then some ErrorCode.question_operator_mismatch
    else if n == 1061
    then some ErrorCode.parallel_question_operator
    else if n == 2001
    then some ErrorCode.impure_call_in_pure_function
    else if n == 2002
    then some ErrorCode.undeclared_effect
    else if n == 2003
    then some ErrorCode.invalid_effect_name
    else if n == 3001
    then some ErrorCode.immutable_mutation
    else if n == 4001
    then some ErrorCode.unused_variable
    else if n == 4002
    then some ErrorCode.unused_function
    else if n == 4003
    then some ErrorCode.shadowing
    else if n == 4004
    then some ErrorCode.unreachable_code
    else if n == 4005
    then some ErrorCode.naming_convention
    else if n == 5001
    then some ErrorCode.module_directive_malformed
    else if n == 5002
    then some ErrorCode.module_top_level_statement
    else if n == 6001
    then some ErrorCode.index_out_of_range
    else if n == 6002
    then some ErrorCode.division_by_zero
    else if n == 6003
    then some ErrorCode.integer_overflow
    else if n == 6004
    then some ErrorCode.assert_failed
    else if n == 6005
    then some ErrorCode.top_level_err_propagation
    else if n == 6006
    then some ErrorCode.top_level_none_propagation
    else if n == 6007
    then some ErrorCode.unwrap_failed
    else if n == 6008
    then some ErrorCode.stack_overflow
    else if n == 9001
    then some ErrorCode.file_not_found
    else if n == 9002
    then some ErrorCode.invalid_extension
    else if n == 9003
    then some ErrorCode.file_read_failure
    else none

of_numeric-numeric : (c : ErrorCode) → of_numeric (numeric c) ≡ some c
unfolding of_numeric numeric
of_numeric-numeric ErrorCode.tab_character = refl
of_numeric-numeric _ = refl

pub numeric-injective : (c d : ErrorCode) → numeric c ≡ numeric d → c ≡ d
numeric-injective c d h = cc (of_numeric-numeric c, of_numeric-numeric d)

pub numeric-lt : (c : ErrorCode) → numeric c < 10000
unfolding numeric
numeric-lt ErrorCode.tab_character = omega arith
numeric-lt _ = omega arith

-- The number that four digits behind a letter stand for.
shown_number : Text → ℕ
shown_number s =
    get_or s 1 0 * 1000 + get_or s 2 0 * 100 + get_or s 3 0 * 10 + get_or s 4 0 - 1111 * b'0'

shown_number-display : (c : ErrorCode) → shown_number (display c) ≡ numeric c
unfolding shown_number display
shown_number-display c = omega (arith, numeric-lt c)

-- Two codes that are shown alike are the same code.
pub display-injective : (c d : ErrorCode) → display c ≡ display d → c ≡ d
display-injective c d h =
    numeric-injective c d (cc (shown_number-display c, shown_number-display d))
