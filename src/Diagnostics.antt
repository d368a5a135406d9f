-- ===== src/Diagnostics.antt =====
-- src/diagnostics: positions, diagnostic codes, the bag of diagnostics and the source files.
pub mod Position
pub mod Codes
pub mod Diagnostic
