-- ===== src/Game/Achievements.antt =====
-- Achievements, crates/aether-gamification/src/achievements.rs. The `HashSet` of the unlocked ids is
-- a list; the uptime in hours is an `f32`, of which only the test `> 24.0` is used.
pub mod Unlock
use aether_terminal.Prelude.{
  ℕ, ◌*◌, Bool, true, false, ◌||◌, String, List, [], ◌∷◌, ◌++◌, str_eq, ltb, leb, length,
  if◌then◌else◌,
}
use aether_terminal.Game.Events.{GameEvent, achievement_unlocked}

pub record AchievementDef : Type 0 where
  pub id : String
  pub name : String
  pub description : String

pub record GameState (Hours : Type 0) : Type 0 where
  pub kills : ℕ
  pub uptime_hours : Hours
  pub zombie_kills : ℕ
  pub arbiter_approvals : ℕ
  pub dpi_analyses : ℕ
  pub diagnostic_resolved_count : ℕ
  pub critical_resolved_count : ℕ
  pub time_without_critical : ℕ

pub record AchievementTracker : Type 0 where
  pub definitions : List AchievementDef
  pub unlocked : List String
  pub pending_events : List GameEvent

abbrev pub default_definitions : List AchievementDef
default_definitions =
    record { id = "first_blood"; name = "First Blood"; description = "Kill your first process" }
    ∷ record {
      id = "uptime_champion";
      name = "Uptime Champion";
      description = "24h without anomalies";
    }
    ∷ record {
      id = "network_oracle";
      name = "Network Oracle";
      description = "Analyze 100 network flows";
    }
    ∷ record {
      id = "zombie_hunter";
      name = "Zombie Hunter";
      description = "Kill 50 zombie processes";
    }
    ∷ record {
      id = "ai_whisperer";
      name = "AI Whisperer";
      description = "Approve 100 AI agent actions";
    }
    ∷ record {
      id = "first_responder";
      name = "First Responder";
      description = "Resolve your first diagnostic";
    }
    ∷ record {
      id = "firefighter";
      name = "Firefighter";
      description = "Resolve 10 Critical diagnostics";
    }
    ∷ record {
      id = "stability_master";
      name = "Stability Master";
      description = "Run 1 hour with 0 active Critical diagnostics";
    }
    ∷ []

unfoldable pub new : AchievementTracker
new = record { definitions = default_definitions; unlocked = []; pending_events = [] }

unfoldable pub contains : String → List String → Bool
contains id [] = false
contains id (x ∷ ids) = str_eq x id || contains id ids

-- An hour in nanoseconds.
abbrev pub hour : ℕ
hour = 3600 * 1_000_000_000

module _ {Hours : Type 0} (over_24 : Hours → Bool) where
  unfoldable pub condition_met : GameState Hours → String → Bool
  condition_met st id =
      if str_eq id "first_blood"
      then ltb 0 st.kills
      else if str_eq id "uptime_champion"
      then over_24 st.uptime_hours
      else if str_eq id "network_oracle"
      then ltb 100 st.dpi_analyses
      else if str_eq id "zombie_hunter"
      then ltb 50 st.zombie_kills
      else if str_eq id "ai_whisperer"
      then ltb 100 st.arbiter_approvals
      else if str_eq id "first_responder"
      then ltb 0 st.diagnostic_resolved_count
      else if str_eq id "firefighter"
      then leb 10 st.critical_resolved_count
      else if str_eq id "stability_master"
      then leb hour st.time_without_critical
      else false

  -- One round of the loop of `check`; the list is `newly_unlocked`.
  unfoldable pub check_def :
      GameState Hours
      → AchievementDef
      → AchievementTracker × List AchievementDef
      → AchievementTracker × List AchievementDef
  check_def st def (t, newly) =
      if contains def.id t.unlocked
      then (t, newly)
      else if condition_met st def.id
      then (
        record t {
          unlocked = def.id ∷ t.unlocked;
          pending_events = t.pending_events ++ achievement_unlocked def.id def.name ∷ [];
        },
        newly ++ def ∷ [],
      )
      else (t, newly)

  unfoldable pub check_loop :
      GameState Hours
      → List AchievementDef
      → AchievementTracker × List AchievementDef
      → AchievementTracker × List AchievementDef
  unfolding check_def
  check_loop st [] s = s
  check_loop st (def ∷ defs) s = check_loop st defs (check_def st def s)

  unfoldable pub check :
      GameState Hours → AchievementTracker → AchievementTracker × List AchievementDef
  check st t = check_loop st t.definitions (t, [])

unfoldable pub is_unlocked : String → AchievementTracker → Bool
is_unlocked id t = contains id t.unlocked

unfoldable pub unlocked_count : AchievementTracker → ℕ
unlocked_count t = length t.unlocked

unfoldable pub total_count : AchievementTracker → ℕ
total_count t = length t.definitions

unfoldable pub drain_events : AchievementTracker → AchievementTracker × List GameEvent
drain_events t = (record t { pending_events = [] }, t.pending_events)
