-- ===== src/Script/Engine.antt =====
-- The engine of crates/aether-script/src/engine.rs: it runs the rules on each process of a snapshot
-- and sends the actions on a channel. The values of type `f32`, how the state record lies in
-- memory, the readings of the clock and the answers of the channel are parameters. Counters of type
-- `u64` are natural numbers.
pub mod Counts
pub mod Snapshot
mod Tests
use aether_terminal.Prelude.{
  ℕ, suc, ◌+◌, String, Bool, true, false, List, [], ◌∷◌, ◌++◌, length, if◌then◌else◌, str_eq,
}
use aether_terminal.Prelude.Map.{Map}
use aether_terminal.Script.Codegen.Machine.{Machine}
use aether_terminal.Script.Runtime.{
  RuleAction, DurationTracker, CompiledRuleSet, evaluate_with_tracker,
}

pub record EngineStats : Type 0 where
  pub evaluations : ℕ
  pub actions_triggered : ℕ
  pub rule_match_counts : Map String ℕ

pub data ProcessState : Type 0 where
  running sleeping zombie stopped : ProcessState

unfoldable pub process_state_to_u32 : ProcessState → ℕ
process_state_to_u32 running = 0
process_state_to_u32 sleeping = 1
process_state_to_u32 zombie = 2
process_state_to_u32 stopped = 3

-- `*entry(name).or_default() += 1`.
unfoldable pub count_match : String → Map String ℕ → Map String ℕ
count_match name [] = (name, 1) ∷ []
count_match name ((key, n) ∷ counts) =
    if str_eq key name then (key, suc n) ∷ counts else (key, n) ∷ count_match name counts

-- The statistics, and the actions that the channel has taken.
pub record Sender : Type 0 where
  pub stats : EngineStats
  pub sent : List RuleAction

abbrev pub counted : RuleAction → EngineStats → EngineStats
counted a stats = record stats {
  rule_match_counts = count_match a.rule_name stats.rule_match_counts;
  actions_triggered = suc stats.actions_triggered;
}

abbrev pub snapshot_done : ℕ → Sender × Bool → Sender
snapshot_done processes (s, true) = record s {
  stats = record s.stats { evaluations = s.stats.evaluations + processes };
}
snapshot_done processes (s, false) = s

-- `takes` says whether the channel takes an action after those it has taken.
module _ (takes : List RuleAction → Bool) where
  -- The loop of `evaluate_snapshot`; `false` when the channel is closed.
  unfoldable pub send_all : List RuleAction → Sender → Sender × Bool
  send_all [] s = (s, true)
  send_all (a ∷ actions) s = elim (takes s.sent) [
    | true ↦ send_all actions (record { stats = counted a s.stats; sent = s.sent ++ a ∷ [] })
    | false ↦ (record s { stats = counted a s.stats }, false)
  ]

-- The fields of `ProcessNode` that the engine reads.
pub record ProcessNode (F : Type 0) : Type 0 where
  pub pid : ℕ
  pub name : String
  pub cpu_percent : F
  pub mem_bytes : ℕ
  pub state : ProcessState
  pub hp : F

-- The state record; the text stands for its pointer and length, and there are no other processes.
pub record WorldState (F : Type 0) : Type 0 where
  pub pid : ℕ
  pub cpu_percent : F
  pub mem_bytes : ℕ
  pub mem_growth_percent : F
  pub state : ℕ
  pub hp : F
  pub name : String
  pub process_count : ℕ

module _ {F : Type 0} (zero_percent : F) where
  unfoldable pub world_state : ProcessNode F → WorldState F
  unfolding process_state_to_u32
  world_state p = record {
    pid = p.pid;
    cpu_percent = p.cpu_percent;
    mem_bytes = p.mem_bytes;
    mem_growth_percent = zero_percent;
    state = process_state_to_u32 p.state;
    hp = p.hp;
    name = p.name;
    process_count = 0;
  }

  -- `place` puts a state record into memory; `clocks` gives the readings for each process.
  module _ (m : Machine) (place : WorldState F → m.State) where
    -- The loop of `collect_actions` over the processes, from the `i`th on.
    unfoldable pub collect_actions :
        (ℕ → ℕ → ℕ × ℕ)
        → ℕ
        → CompiledRuleSet
        → List (ProcessNode F)
        → DurationTracker
        → List RuleAction
        → DurationTracker × List RuleAction
    collect_actions clocks i rules [] tracker all_actions = (tracker, all_actions)
    collect_actions clocks i rules (p ∷ processes) tracker all_actions =
        let (tracker', actions) =
          evaluate_with_tracker m (place (world_state p)) (clocks i) rules tracker in
        collect_actions clocks (suc i) rules processes tracker' (all_actions ++ actions)

    -- `evaluate_snapshot` with the loaded rules.
    unfoldable pub evaluate_snapshot :
        (List RuleAction → Bool)
        → (ℕ → ℕ → ℕ × ℕ)
        → CompiledRuleSet
        → List (ProcessNode F)
        → DurationTracker × Sender
        → DurationTracker × Sender
    evaluate_snapshot takes clocks rules processes (tracker, s) =
        let (tracker', all_actions) = collect_actions clocks 0 rules processes tracker [] in
        (tracker', snapshot_done (length processes) (send_all takes all_actions s))
