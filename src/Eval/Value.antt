-- ===== src/Eval/Value.antt =====
-- src/eval/value.rs: runtime values. `Arc` is transparent: the values are immutable here, and a write
-- through `Arc::make_mut` is a new value.
pub mod Key
use yabumi.Common.{zero, suc, Option, some, none, ℕ, Bool, List, Text}
use yabumi.Common.Int.{ℤ}
use yabumi.Ast.Pattern.{F64}
use yabumi.Ast.Expr.{Expr, LambdaParam}

-- `MapKeys` is `Vec<MapKey>`.
mutual
  pub data MapKey : Type 0 where
    int : ℤ → MapKey
    bool : Bool → MapKey
    str : Text → MapKey
    tuple : MapKeys → MapKey

  pub data MapKeys : Type 0 where
    no_keys : MapKeys
    cons_key : MapKey → MapKeys → MapKeys

pub record LambdaBody : Type 0 where
  pub params : List LambdaParam
  pub body : Expr

pub data CallTarget : Type 0 where
  function : Text → CallTarget
  lambda : LambdaBody → CallTarget
  builtin : Text → CallTarget

-- `Values` is `Vec<Value>`, `Entries` the entries of an `IndexMap<MapKey, Value>` in insertion order,
-- and `Captured` is `Vec<(Arc<str>, Value)>`. A set is its keys in insertion order.
mutual
  pub data Value : Type 0 where
    int : ℤ → Value
    float : F64 → Value
    bool : Bool → Value
    void : Value
    str : Text → Value
    list : Values → Value
    dict : Entries → Value
    set : List MapKey → Value
    tuple : Values → Value
    -- the type's name and the fields in declaration order
    struct : Text → Values → Value
    -- the type's name, the variant's index and name, and the fields
    enum : Text → ℕ → Text → Values → Value
    closure : CallTarget → Captured → Value

  pub data Values : Type 0 where
    nil : Values
    cons : Value → Values → Values

  pub data Entries : Type 0 where
    no_entries : Entries
    entry : MapKey → Value → Entries → Entries

  pub data Captured : Type 0 where
    no_captured : Captured
    capture : Text → Value → Captured → Captured

-- `Vec<Value>`: the length, an element, a write in range, and concatenation.
abbrev pub count : Values → ℕ
count nil = 0
count (cons v vs) = suc (count vs)

abbrev pub nth : Values → ℕ → Option Value
nth nil i = none
nth (cons v vs) zero = some v
nth (cons v vs) (suc i) = nth vs i

abbrev pub replace : Values → ℕ → Value → Values
replace nil i w = nil
replace (cons v vs) zero w = cons w vs
replace (cons v vs) (suc i) w = cons v (replace vs i w)

abbrev pub merge : Values → Values → Values
merge nil ws = ws
merge (cons v vs) ws = cons v (merge vs ws)

abbrev pub entry_count : Entries → ℕ
entry_count no_entries = 0
entry_count (entry k v es) = suc (entry_count es)
