-- ===== src/Core.antt =====
-- The shared data structures of crates/aether-core.
pub mod Arbiter
pub mod Models
pub mod Metrics
pub mod Petgraph
pub mod Graph
mod Tests
