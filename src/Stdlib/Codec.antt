-- ===== src/Stdlib/Codec.antt =====
-- src/stdlib/codec/mod.rs: what the codecs share. The text of an `f64` is the standard library's, so
-- its printing and reading are parameters.
pub mod Csv
use yabumi.Common.{ℕ, ◌==◌, Bool, any, ◌||◌, ◌++◌, Option, if◌then◌else◌, Text, text}
use yabumi.Common.Int.{ℤ}
use yabumi.Ast.Pattern.{F64}
use yabumi.Eval.Value.{Value, Values, Entries, nil, cons}
use yabumi.Stdlib.{error_value}

-- `f64`'s `Display`, `str::parse`, `is_nan` and `is_infinite`.
pub record FloatText : Type 0 where
  pub display : F64 → Text
  pub parse : Text → Option F64
  pub is_nan : F64 → Bool
  pub is_infinite : F64 → Bool

abbrev pub decode_error : Text → Value
decode_error message = error_value (text "decode") message

-- `dyn_enum`, for the name and its place in `DYN_VARIANTS`.
abbrev dyn_enum : ℕ → Text → Values → Value
dyn_enum index name fields = Value.enum (text "Value") index name fields

abbrev pub dyn_null : Value
dyn_null = dyn_enum 0 (text "Null") nil

abbrev pub dyn_bool : Bool → Value
dyn_bool b = dyn_enum 1 (text "Bool") (cons (Value.bool b) nil)

abbrev pub dyn_int : ℤ → Value
dyn_int n = dyn_enum 2 (text "Int") (cons (Value.int n) nil)

abbrev pub dyn_float : F64 → Value
dyn_float x = dyn_enum 3 (text "Float") (cons (Value.float x) nil)

abbrev pub dyn_str : Text → Value
dyn_str s = dyn_enum 4 (text "Str") (cons (Value.str s) nil)

abbrev pub dyn_list : Values → Value
dyn_list items = dyn_enum 5 (text "List") (cons (Value.list items) nil)

abbrev pub dyn_dict : Entries → Value
dyn_dict entries = dyn_enum 6 (text "Dict") (cons (Value.dict entries) nil)

unfoldable pub format_float_default : FloatText → F64 → Text
format_float_default f x =
    let s = f.display x in
    if f.is_nan x || f.is_infinite x
    then text "0.0"
    else if any (λ c. c == 46) s || any (λ c. c == 101) s || any (λ c. c == 69) s
    then s
    else s ++ text ".0"
