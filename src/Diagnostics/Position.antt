-- ===== src/Diagnostics/Position.antt =====
-- src/diagnostics/source_map.rs: `Position`, `Span`, `FileId`. Line and column are `u32`.
use yabumi.Common.{ℕ}

pub record Position : Type 0 where
  pub line : ℕ
  pub col : ℕ

abbrev pub FileId : Type 0
FileId = ℕ

-- `end` is the position just behind the text.
pub record Span : Type 0 where
  pub file : FileId
  pub start : Position
  pub end : Position
