-- ===== src/Script/Engine/Tests.antt =====
-- A concrete snapshot for crates/aether-script/src/engine.rs.
use aether_terminal.Prelude.{
  ℕ, ◌+◌, ◌≡◌, refl, ◌==◌, ltb, Bool, true, none, List, [], ◌∷◌, ◌++◌, length, if◌then◌else◌,
}
use aether_terminal.Script.Runtime.{RuleAction}
use aether_terminal.Script.Samples.{test_machine, ninety_five, hot_rule}
use aether_terminal.Script.Tests.{accepts, hot_set, compile-hot, since_three, nine_seconds}
use aether_terminal.Script.Engine.{Sender, ProcessNode, ProcessState, WorldState, evaluate_snapshot}
use aether_terminal.Script.Engine.Counts.{IsCounted, evaluate_snapshot-IsCounted}
use aether_terminal.Script.Engine.Snapshot.{interpret_all, evaluate_snapshot-interpret}

-- The first two fields in memory.
abbrev place : WorldState ℕ → ℕ → ℕ
place w offset = if offset == 0 then w.pid else if offset == 4 then w.cpu_percent else 0

abbrev node : ℕ → ProcessNode ℕ
node pid = record {
  pid = pid;
  name = "worker";
  cpu_percent = ninety_five;
  mem_bytes = 1024;
  state = ProcessState.running;
  hp = 0;
}

abbrev silent : Sender
silent = record {
  stats = record { evaluations = 0; actions_triggered = 0; rule_match_counts = [] };
  sent = [];
}

abbrev clocks : ℕ → ℕ → ℕ × ℕ
clocks i = nine_seconds

-- A channel that closes after one action.
abbrev takes_one : List RuleAction → Bool
takes_one sent = ltb (length sent) 1

evaluate_snapshot-IsCounted_example :
    IsCounted
      (evaluate_snapshot 0 test_machine place takes_one clocks hot_set
        (node 7 ∷ node 8 ∷ [])
        (since_three, silent)).1
evaluate_snapshot-IsCounted_example =
    evaluate_snapshot-IsCounted 0 test_machine place takes_one clocks hot_set (node 7 ∷ node 8 ∷ [])
      since_three silent refl

evaluate_snapshot-interpret_example :
    (let after =
        evaluate_snapshot 0 test_machine place
          (λ sent. true)
          clocks
          hot_set
          (node 7 ∷ node 8 ∷ [])
          (since_three, silent) in
      let spec =
        interpret_all 0 test_machine place clocks 0
          (hot_rule ∷ [])
          (node 7 ∷ node 8 ∷ [])
          since_three
          [] in
      (after.0 ≡ spec.0)
      × (after.1.sent ≡ [] ++ spec.1)
      × (after.1.stats.evaluations ≡ 0 + length (node 7 ∷ node 8 ∷ [])))
evaluate_snapshot-interpret_example =
    evaluate_snapshot-interpret 0 test_machine place accepts accepts none clocks (hot_rule ∷ [])
      hot_set (node 7 ∷ node 8 ∷ []) since_three silent compile-hot
