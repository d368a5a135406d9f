-- ===== src/Types/Ty.antt =====
-- src/types/mod.rs: `Ty`, and how a type is shown. `Tys` is `Vec<Ty>`.
use yabumi.Common.{suc, ℕ, Bool, true, false, List, [], ◌∷◌, ◌++◌, Text, text}
use yabumi.Types.Effects.{EffectSet, is_empty, names}

mutual
  pub data Ty : Type 0 where
    int float bool str void : Ty
    list : Ty → Ty
    dict : Ty → Ty → Ty
    set : Ty → Ty
    tuple : Tys → Ty
    named : Text → Tys → Ty
    -- the parameters, the effects and the result
    function : Tys → EffectSet → Ty → Ty
    type_var : Text → Ty
    unknown : Ty

  pub data Tys : Type 0 where
    nil : Tys
    cons : Ty → Tys → Tys

abbrev pub count : Tys → ℕ
count nil = 0
count (cons t ts) = suc (count ts)

-- Texts with ", " between them.
unfoldable pub comma_separated : List Text → Text
comma_separated [] = []
comma_separated (s ∷ []) = s
comma_separated (s ∷ t ∷ ss) = s ++ (text ", " ++ comma_separated (t ∷ ss))

abbrev pub uses_clause : EffectSet → Text
uses_clause effects = shown (is_empty effects)
  where
    shown : Bool → Text
    shown true = []
    shown false = text " uses {" ++ (comma_separated (names effects) ++ text "}")

-- `fmt_comma_separated` behind a first item.
unfoldable mutual
  pub display : Ty → Text
  display int = text "int"
  display float = text "float"
  display bool = text "bool"
  display str = text "str"
  display void = text "void"
  display (list inner) = text "list[" ++ (display inner ++ text "]")
  display (dict key value) =
      text "dict[" ++ (display key ++ (text ", " ++ (display value ++ text "]")))
  display (set inner) = text "set[" ++ (display inner ++ text "]")
  display (tuple items) = text "tuple[" ++ (comma_separated (displays items) ++ text "]")
  display (named name nil) = name
  display (named name (cons t ts)) =
      name ++ (text "[" ++ (comma_separated (displays (cons t ts)) ++ text "]"))
  display (function params effects ret) =
      text "("
      ++ (comma_separated (displays params)
          ++ (text ") -> " ++ (display ret ++ uses_clause effects)))
  display (type_var name) = name
  display unknown = text "_"

  pub displays : Tys → List Text
  displays nil = []
  displays (cons t ts) = display t ∷ displays ts
