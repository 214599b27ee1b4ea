-- ===== src/Analyze.antt =====
-- The diagnostics of crates/aether-analyze.
pub mod Correlator
pub mod Store
pub mod Trend
pub mod Rules
mod Tests
