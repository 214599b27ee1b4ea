-- ===== src/Tui.antt =====
-- The terminal interface of crates/aether-render/src/tui.
pub mod Input
