-- ===== src/Stdlib/Codec/Csv/Contract.antt =====
-- What a program may rely on of `encode` and `decode` of src/stdlib/codec/csv.rs.
use yabumi.Common.{true, List, [], ◌∷◌, Text, ◌≡◌, ◌∙◌, All, length}
use yabumi.Common.Result.{ok}
use yabumi.Ast.Decl.{StructDecl, Param}
use yabumi.Eval.Program.{param_names}
use yabumi.Eval.Value.{Value, Values, nil, cons}
use yabumi.Stdlib.{ok_value}
use yabumi.Stdlib.Codec.{FloatText}
use yabumi.Stdlib.Codec.Csv.{parse_csv_rows}
use yabumi.Stdlib.Codec.Csv.RoundTrip.{HasCell, parse_csv_rows-encode_lines}
use yabumi.Stdlib.Codec.Csv.Table.{
  is_blank, cells_of, lines_of, encode, decode, read_rows, read_struct, decode_table,
}
use yabumi.Stdlib.Codec.Csv.Typed.{
  DistinctNames, HasKinds, FitsRows, no_rows, also_row, columns_from, columns-header,
  read_rows-lines_of,
}

lines_of-HasCell :
    (f : FloatText) (name : Text) (ps : List Param) {rows : Values}
    → HasCell (param_names ps)
    → FitsRows f name ps rows
    → All HasCell (lines_of f ps rows)
unfolding lines_of cells_of
lines_of-HasCell f name ps some_field no_rows = tt
lines_of-HasCell f name (p ∷ ps) some_field (also_row (cons v vs) rows fit written fits) =
    (tt, lines_of-HasCell f name (p ∷ ps) some_field fits)
lines_of-HasCell f name (p ∷ ps) some_field (also_row nil rows fit written fits) = absurd fit
lines_of-HasCell f name [] some_field (also_row vs rows fit written fits) = absurd some_field

decode-scanned :
    (f : FloatText) (s : Text) (decl : StructDecl) {lines : List (List Text)}
    → parse_csv_rows s ≡ ok lines
    → decode f s decl ≡ decode_table f decl lines
unfolding decode
decode-scanned f s decl h = rw h

encode-scanned :
    (f : FloatText) (decl : StructDecl) (rows : Values)
    → HasCell (param_names decl.fields)
    → All HasCell (lines_of f decl.fields rows)
    → parse_csv_rows (encode f rows decl)
      ≡ ok (param_names decl.fields ∷ lines_of f decl.fields rows)
unfolding encode
encode-scanned f decl rows some_field cells =
    parse_csv_rows-encode_lines (param_names decl.fields ∷ lines_of f decl.fields rows)
      (some_field, cells)

decode_table-rows :
    (f : FloatText) (decl : StructDecl) (rows : Values) (lines : List (List Text))
    → DistinctNames decl.fields
    → HasKinds decl.fields
    → read_rows
        (read_struct f decl.name (columns_from 0 decl.fields))
        (length (param_names decl.fields))
        lines
      ≡ ok rows
    → decode_table f decl (param_names decl.fields ∷ lines) ≡ ok_value (Value.list rows)
decode_table-rows f decl rows lines distinct kinds read =
    rw (columns-header decl.fields distinct kinds, read)

-- `decode` gives back the rows that `encode` wrote, for a type with a field, whose fields have
-- distinct names without white space round them and are int, float, bool or str, and for rows whose
-- values fit, with no row that is one empty text.
pub decode-encode :
    (f : FloatText) (decl : StructDecl) (rows : Values)
    → HasCell (param_names decl.fields)
    → DistinctNames decl.fields
    → HasKinds decl.fields
    → FitsRows f decl.name decl.fields rows
    → decode f (encode f rows decl) decl ≡ ok_value (Value.list rows)
decode-encode f decl rows some_field distinct kinds fits =
    let header = param_names decl.fields in
    decode-scanned f (encode f rows decl) decl (
      encode-scanned f decl rows some_field
        (lines_of-HasCell f decl.name decl.fields some_field fits))
    ∙ decode_table-rows f decl rows _ distinct kinds
        (read_rows-lines_of f decl.name decl.fields fits)

is_blank-HasCell : (cells : List Text) → is_blank cells ≡ true → HasCell cells
is_blank-HasCell [] h = absurd cc
is_blank-HasCell (c ∷ cs) h = tt

-- Under the same conditions, a row that is one empty text is lost: `decode` gives the other rows.
pub decode-encode_blank :
    (f : FloatText) (decl : StructDecl) (vs rows : Values)
    → HasCell (param_names decl.fields)
    → DistinctNames decl.fields
    → HasKinds decl.fields
    → is_blank (cells_of f decl.fields vs) ≡ true
    → FitsRows f decl.name decl.fields rows
    → decode f (encode f (cons (Value.struct decl.name vs) rows) decl) decl
      ≡ ok_value (Value.list rows)
unfolding lines_of read_rows
decode-encode_blank f decl vs rows some_field distinct kinds blank fits =
    let all = cons (Value.struct decl.name vs) rows in
    decode-scanned f (encode f all decl) decl (
      encode-scanned f decl all some_field (
        is_blank-HasCell (cells_of f decl.fields vs) blank,
        lines_of-HasCell f decl.name decl.fields some_field fits,
      ))
    ∙ decode_table-rows f decl rows (lines_of f decl.fields all) distinct kinds
        (rw blank (read_rows-lines_of f decl.name decl.fields fits))
