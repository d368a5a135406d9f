-- ===== src/Stdlib/Codec/Csv/Table.antt =====
-- src/stdlib/codec/csv.rs: `encode`, `decode` and `decode_rows`, between texts and values.
use yabumi.Common.{
  ℕ, suc, ◌==◌, Bool, true, false, List, [], ◌∷◌, ◌++◌, Option, some, none, if◌then◌else◌, Text,
  text, text_eq, length, get_elem?,
}
use yabumi.Common.Int.{pos}
use yabumi.Common.Decimal.{int_to_string, parse_i64, trim}
use yabumi.Common.Result.{Result, ok, err, ◌>>=◌}
use yabumi.Ast.TypeAnn.{TypeAnn, TypeAnnKind, TypeAnns}
use yabumi.Ast.Decl.{StructDecl, Param}
use yabumi.Eval.Program.{param_names}
use yabumi.Eval.Value.{Value, Values, MapKey, Entries, no_entries, nil, cons}
use yabumi.Eval.Value.Key.{insert}
use yabumi.Stdlib.{ok_value, err_value}
use yabumi.Stdlib.Codec.{FloatText, decode_error, dyn_str, format_float_default}
use yabumi.Stdlib.Codec.Csv.{parse_csv_rows, encode_lines}

abbrev kind_of_name : Text → Option Text
kind_of_name name =
    if text_eq name (text "int")
    then some name
    else if text_eq name (text "float")
    then some name
    else if text_eq name (text "bool")
    then some name
    else if text_eq name (text "str")
    then some name
    else none

abbrev kind_of : TypeAnnKind → Option Text
kind_of (TypeAnnKind.named name TypeAnns.none) = kind_of_name name
kind_of _ = none

unfoldable pub field_kind_name : TypeAnn → Option Text
field_kind_name (TypeAnn.type_ann kind at) = kind_of kind

-- `format!("'{cell}' cannot be interpreted as {kind}")`
abbrev no_cell : Text → Text → Text
no_cell cell kind = text "'" ++ (cell ++ (text "' cannot be interpreted as " ++ kind))

abbrev or_no_cell {ℓ} : {A : Type ℓ} → Option A → (A → Value) → Text → Text → Result Value Text
or_no_cell none make cell kind = err (no_cell cell kind)
or_no_cell (some a) make cell kind = ok (make a)

abbrev bool_of : Text → Option Bool
bool_of cell =
    if text_eq cell (text "true")
    then some true
    else if text_eq cell (text "false")
    then some false
    else none

abbrev bool_to_string : Bool → Text
bool_to_string true = text "true"
bool_to_string false = text "false"

unfoldable pub parse_cell : FloatText → Text → Text → Result Value Text
parse_cell f cell kind =
    if text_eq kind (text "int")
    then or_no_cell (parse_i64 (trim cell)) Value.int cell kind
    else if text_eq kind (text "float")
    then or_no_cell (f.parse (trim cell)) Value.float cell kind
    else if text_eq kind (text "bool")
    then or_no_cell (bool_of (trim cell)) Value.bool cell kind
    else ok (Value.str cell)

-- The text of a value where the kind is that of the value.
abbrev when_kind : Text → Text → Text → Text
when_kind kind expected s = if text_eq kind expected then s else []

unfoldable pub format_cell : FloatText → Value → Text → Text
format_cell f (Value.int n) kind = when_kind kind (text "int") (int_to_string n)
format_cell f (Value.float x) kind = when_kind kind (text "float") (format_float_default f x)
format_cell f (Value.bool b) kind = when_kind kind (text "bool") (bool_to_string b)
format_cell f (Value.str s) kind = when_kind kind (text "str") s
format_cell f _ kind = []

abbrev pub kind_or_str : Param → Text
kind_or_str p = elim (field_kind_name p.ty) [ some kind ↦ kind | none ↦ text "str" ]

-- The loop over `fields.iter().zip(inst.fields.iter())`.
unfoldable pub cells_of : FloatText → List Param → Values → List Text
unfolding format_cell field_kind_name
cells_of f [] vs = []
cells_of f (p ∷ ps) nil = []
cells_of f (p ∷ ps) (cons v vs) = format_cell f v (kind_or_str p) ∷ cells_of f ps vs

abbrev line_of : FloatText → List Param → Value → List (List Text) → List (List Text)
line_of f ps (Value.struct name vs) rest = cells_of f ps vs ∷ rest
line_of f ps _ rest = rest

unfoldable pub lines_of : FloatText → List Param → Values → List (List Text)
unfolding cells_of
lines_of f ps nil = []
lines_of f ps (cons row rows) = line_of f ps row (lines_of f ps rows)

unfoldable pub encode : FloatText → Values → StructDecl → Text
unfolding encode_lines lines_of
encode f rows source_struct =
    encode_lines (param_names source_struct.fields ∷ lines_of f source_struct.fields rows)

-- `header.iter().position(|h| h.trim() == name)`
unfoldable pub position_trimmed : Text → List Text → Option ℕ
position_trimmed name [] = none
position_trimmed name (h ∷ hs) =
    if text_eq (trim h) name
    then some 0
    else elim (position_trimmed name hs) [ some i ↦ some (suc i) | none ↦ none ]

abbrev column_at : Param → Option ℕ → Option Text → Result (ℕ × Text) Value
column_at p none kind =
    err (err_value (decode_error (text "csv: header is missing field '" ++ (p.name ++ text "'"))))
column_at p (some index) none = err (
    err_value (
      decode_error (
        text "csv: field '"
        ++ (p.name ++ text "' has an unsupported type (only int/float/bool/str are allowed)"))))
column_at p (some index) (some kind) = ok (index, kind)

unfoldable pub columns : List Text → List Param → Result (List (ℕ × Text)) Value
unfolding position_trimmed field_kind_name
columns header [] = ok []
columns header (p ∷ ps) =
    column_at p (position_trimmed p.name header) (field_kind_name p.ty) >>= λ column.
    columns header ps >>= λ rest. ok (column ∷ rest)

-- `row[*idx]`, which is there since the row is as long as the header.
abbrev pub cell_at : List Text → ℕ → Text
cell_at row i = elim (get_elem? row i) [ some cell ↦ cell | none ↦ [] ]

abbrev or_decode_error {ℓ} : {A : Type ℓ} → Result A Text → Result A Value
or_decode_error (ok a) = ok a
or_decode_error (err message) = err (err_value (decode_error message))

unfoldable pub read_cells : FloatText → List Text → List (ℕ × Text) → Result Values Value
unfolding parse_cell
read_cells f row [] = ok nil
read_cells f row ((i, kind) ∷ rest) = or_decode_error (parse_cell f (cell_at row i) kind) >>= λ v.
    read_cells f row rest >>= λ vs. ok (cons v vs)

abbrev pub is_blank : List Text → Bool
is_blank ([] ∷ []) = true
is_blank _ = false

abbrev count_mismatch : ℕ → ℕ → Value
count_mismatch expected got = err_value (
    decode_error (
      text "csv: field count mismatch (expected "
      ++ (int_to_string (pos expected)
          ++ (text ", got " ++ (int_to_string (pos got) ++ text ")")))))

-- The loop over the rows behind the header, for what a row gives.
unfoldable pub read_rows :
    (List Text → Result Value Value) → ℕ → List (List Text) → Result Values Value
read_rows read width [] = ok nil
read_rows read width (row ∷ rows) =
    let rest = read_rows read width rows in
    if is_blank row
    then rest
    else if length row == width
    then (read row >>= λ v. rest >>= λ vs. ok (cons v vs))
    else err (count_mismatch width (length row))

abbrev either_value : Result Values Value → Value
either_value (ok vs) = ok_value (Value.list vs)
either_value (err e) = e

abbrev pub read_struct : FloatText → Text → List (ℕ × Text) → List Text → Result Value Value
read_struct f name cols row = read_cells f row cols >>= λ vs. ok (Value.struct name vs)

-- From the rows on, and from the scanned text on.
abbrev pub decode_table : FloatText → StructDecl → List (List Text) → Value
decode_table f target [] = err_value (decode_error (text "csv: missing header row"))
decode_table f target (header ∷ rows) = either_value (
    columns header target.fields >>= λ cols.
    read_rows (read_struct f target.name cols) (length header) rows)

abbrev scanned : Result (List (List Text)) Text → (List (List Text) → Value) → Value
scanned (ok rows) k = k rows
scanned (err message) k = err_value (decode_error (text "csv: " ++ message))

unfoldable pub decode : FloatText → Text → StructDecl → Value
unfolding parse_csv_rows columns read_rows read_cells
decode f s target_struct = scanned (parse_csv_rows s) (decode_table f target_struct)

-- The loop over `header.iter().zip(row.iter())`.
unfoldable pub row_entries : List Text → List Text → Entries → Entries
row_entries [] cells es = es
row_entries (h ∷ hs) [] es = es
row_entries (h ∷ hs) (cell ∷ cells) es =
    row_entries hs cells (insert (MapKey.str (trim h)) (dyn_str cell) es)

abbrev dict_rows : List (List Text) → Value
dict_rows [] = err_value (decode_error (text "csv: missing header row"))
dict_rows (header ∷ rows) =
    either_value
      (read_rows (λ row. ok (Value.dict (row_entries header row no_entries))) (length header) rows)

unfoldable pub decode_rows : Text → Value
unfolding parse_csv_rows read_rows row_entries
decode_rows s = scanned (parse_csv_rows s) dict_rows
