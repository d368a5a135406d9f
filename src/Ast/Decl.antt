-- ===== src/Ast/Decl.antt =====
-- src/ast/decl.rs: declarations, without what is there for the formatter and for doc tests (comments).
use yabumi.Common.{Bool, List, Option, Text}
use yabumi.Diagnostics.Position.{Span}
use yabumi.Ast.Pattern.{NodeId}
use yabumi.Ast.TypeAnn.{TypeAnn}
use yabumi.Ast.Expr.{Block, Stmt}

pub record SelfParam : Type 0 where
  pub mutable : Bool
  pub span : Span

pub record Param : Type 0 where
  pub name : Text
  pub ty : TypeAnn
  pub span : Span

pub record FunctionDecl : Type 0 where
  pub id : NodeId
  pub name : Text
  pub generics : List Text
  pub self_param : Option SelfParam
  pub params : List Param
  pub ret : TypeAnn
  pub effects : List Text
  pub body : Block
  pub span : Span

pub record StructDecl : Type 0 where
  pub id : NodeId
  pub name : Text
  pub generics : List Text
  pub fields : List Param
  pub methods : List FunctionDecl
  pub span : Span

pub record EnumVariant : Type 0 where
  pub name : Text
  pub fields : List TypeAnn
  pub field_names : List (Option Text)
  pub span : Span

pub record EnumDecl : Type 0 where
  pub id : NodeId
  pub name : Text
  pub generics : List Text
  pub variants : List EnumVariant
  pub span : Span

pub data Decl : Type 0 where
  function : FunctionDecl → Decl
  struct : StructDecl → Decl
  enum : EnumDecl → Decl

pub data Item : Type 0 where
  decl : Decl → Item
  statement : Stmt → Item
