-- ===== src/Stdlib.antt =====
-- src/stdlib/mod.rs: the values of the builtin enums that the library functions return.
pub mod Codec
pub mod Collections
use yabumi.Common.{Text, text}
use yabumi.Eval.Value.{Value, Values, nil, cons}

abbrev pub some_value : Value → Value
some_value v = Value.enum (text "Option") 0 (text "Some") (cons v nil)

abbrev pub none_value : Value
none_value = Value.enum (text "Option") 1 (text "None") nil

abbrev pub ok_value : Value → Value
ok_value v = Value.enum (text "Result") 0 (text "Ok") (cons v nil)

abbrev pub err_value : Value → Value
err_value v = Value.enum (text "Result") 1 (text "Err") (cons v nil)

abbrev pub error_value : Text → Text → Value
error_value kind message =
    Value.struct (text "Error")
      (cons (Value.str kind) (cons (Value.str message) (cons none_value nil)))
