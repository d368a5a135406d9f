-- ===== src/Diagnostics/Codes.antt =====
-- src/diagnostics/codes.rs: the closed set of diagnostic codes, and how a code is shown.
pub mod Laws
use yabumi.Common.{ℕ, ◌+◌, ◌/◌, ◌%◌, [], ◌∷◌, Text}

pub data ErrorCode : Type 0 where
  tab_character unterminated_string invalid_escape invalid_number_literal unknown_token : ErrorCode
  indent_mismatch unexpected_token pipe_placeholder_missing duplicate_name : ErrorCode
  missing_param_annotation uninferable_type collection_element_type_mismatch : ErrorCode
  dict_key_type_not_allowed set_element_type_not_allowed : ErrorCode
  unsupported_operator_for_type_param branch_type_mismatch non_exhaustive_match : ErrorCode
  unused_result int_float_mixed unorderable_type question_operator_mismatch : ErrorCode
  parallel_question_operator impure_call_in_pure_function undeclared_effect : ErrorCode
  invalid_effect_name immutable_mutation unused_variable unused_function shadowing : ErrorCode
  unreachable_code naming_convention module_directive_malformed module_top_level_statement :
      ErrorCode
  index_out_of_range division_by_zero integer_overflow assert_failed : ErrorCode
  top_level_err_propagation top_level_none_propagation unwrap_failed stack_overflow : ErrorCode
  file_not_found invalid_extension file_read_failure : ErrorCode

unfoldable pub numeric : ErrorCode → ℕ
numeric tab_character = 1
numeric unterminated_string = 2
numeric invalid_escape = 3
numeric invalid_number_literal = 4
numeric unknown_token = 5
numeric indent_mismatch = 501
numeric unexpected_token = 502
numeric pipe_placeholder_missing = 503
numeric duplicate_name = 1001
numeric missing_param_annotation = 1002
numeric uninferable_type = 1003
numeric collection_element_type_mismatch = 1010
numeric dict_key_type_not_allowed = 1011
numeric set_element_type_not_allowed = 1012
numeric unsupported_operator_for_type_param = 1013
numeric branch_type_mismatch = 1020
numeric non_exhaustive_match = 1021
numeric unused_result = 1040
numeric int_float_mixed = 1050
numeric unorderable_type = 1051
numeric question_operator_mismatch = 1060
numeric parallel_question_operator = 1061
numeric impure_call_in_pure_function = 2001
numeric undeclared_effect = 2002
numeric invalid_effect_name = 2003
numeric immutable_mutation = 3001
numeric unused_variable = 4001
numeric unused_function = 4002
numeric shadowing = 4003
numeric unreachable_code = 4004
numeric naming_convention = 4005
numeric module_directive_malformed = 5001
numeric module_top_level_statement = 5002
numeric index_out_of_range = 6001
numeric division_by_zero = 6002
numeric integer_overflow = 6003
numeric assert_failed = 6004
numeric top_level_err_propagation = 6005
numeric top_level_none_propagation = 6006
numeric unwrap_failed = 6007
numeric stack_overflow = 6008
numeric file_not_found = 9001
numeric invalid_extension = 9002
numeric file_read_failure = 9003

-- `E{:04}`: every code has at most four digits.
unfoldable pub display : ErrorCode → Text
unfolding numeric
display c =
    let n = numeric c in
    b'E' ∷ (b'0' + n / 1000) ∷ (b'0' + n / 100 % 10) ∷ (b'0' + n / 10 % 10) ∷ (b'0' + n % 10) ∷ []
