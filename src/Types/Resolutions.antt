-- ===== src/Types/Resolutions.antt =====
-- src/types/resolutions.rs: the facts that the type checker leaves for the later phases. A
-- `HashMap<NodeId, T>` is a function into `Option T`.
use yabumi.Common.{ℕ, Bool, List, Option}
use yabumi.Diagnostics.Position.{Span}
use yabumi.Ast.Pattern.{NodeId}
use yabumi.Types.Namespace.{NamespaceId}
use yabumi.Types.Ty.{Ty}

pub data WrapKind : Type 0 where
  ok some : WrapKind

pub data BareIdentKind : Type 0 where
  unit_variant binding : BareIdentKind

pub data CallKind : Type 0 where
  struct_init enum_variant_init function_call closure_call : CallKind

pub record Resolutions : Type 0 where
  pub field_index : NodeId → Option ℕ
  pub type_args : NodeId → Option (List Ty)
  pub decode_target : NodeId → Option Ty
  pub bare_ident_kind : NodeId → Option BareIdentKind
  pub call_kind : NodeId → Option CallKind
  pub ident_def : NodeId → Option Span
  pub expr_ty : NodeId → Option Ty
  pub implicit_wrap : NodeId → Option WrapKind
  pub namespace_ref : NodeId → Option NamespaceId
  pub csv_encode_target : NodeId → Option Ty
  pub hof_forwarding : NodeId → Option (List Bool)
