-- ===== src/Analyze/Rules.antt =====
-- The diagnostic rules of crates/aether-analyze/src/rules.
pub mod Types
pub mod Condition
pub mod Engine
pub mod Instant
pub mod Firing
pub mod Sustained
mod Tests
