-- ===== src/Tests.antt =====
-- The theorems at concrete inputs.
mod Eval
mod Types
mod Rest
mod Script
mod Run
mod Effects
mod Concurrency
