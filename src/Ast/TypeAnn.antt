-- ===== src/Ast/TypeAnn.antt =====
-- src/ast/ty_ann.rs: syntactic type annotations. `TypeAnns` is `Vec<TypeAnn>`.
use yabumi.Common.{List, Text}
use yabumi.Diagnostics.Position.{Span}

mutual
  pub data TypeAnn : Type 0 where
    type_ann : TypeAnnKind → Span → TypeAnn

  pub data TypeAnnKind : Type 0 where
    named : Text → TypeAnns → TypeAnnKind
    tuple : TypeAnns → TypeAnnKind
    function : TypeAnns → List Text → TypeAnn → TypeAnnKind
    void : TypeAnnKind

  pub data TypeAnns : Type 0 where
    none : TypeAnns
    also : TypeAnn → TypeAnns → TypeAnns
