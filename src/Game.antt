-- ===== src/Game.antt =====
-- The progress of the user, crates/aether-gamification.
pub mod Events
pub mod Xp
pub mod Achievements
mod Tests
