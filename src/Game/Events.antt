-- ===== src/Game/Events.antt =====
-- The events of crates/aether-core/src/events.rs that the gamification emits.
use aether_terminal.Prelude.{ℕ, String}

pub data GameEvent : Type 0 where
  xp_earned : ℕ → String → GameEvent
  achievement_unlocked : String → String → GameEvent
