-- ===== src/Diagnostics/Diagnostic.antt =====
-- src/diagnostics/mod.rs: a diagnostic.
use yabumi.Common.{Text}
use yabumi.Diagnostics.Codes.{ErrorCode}
use yabumi.Diagnostics.Position.{Span}

pub record Diagnostic : Type 0 where
  pub code : ErrorCode
  pub span : Span
  pub message : Text
