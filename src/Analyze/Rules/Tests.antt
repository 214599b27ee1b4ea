-- ===== src/Analyze/Rules/Tests.antt =====
-- Runs of the rule engine.
use aether_terminal.Prelude.{
  ℕ, ◌-◌, ◌*◌, ◌≡◌, refl, Bool, true, false, leb, List, [], ◌∷◌, map, String, Option, none, some,
  All, arith, f64_le,
}
use aether_terminal.Prelude.Map.{lookup, insert}
use aether_terminal.Core.Metrics.{last}
use aether_terminal.Core.Metrics.Numbers.{numbers}
use aether_terminal.Game.Xp.{warning}
use aether_terminal.Analyze.Correlator.{process, cpu_spike}
use aether_terminal.Analyze.Store.{MetricStore, new_store, push_metric, get, process_pids}
use aether_terminal.Analyze.Rules.Types.{
  gt, RuleCondition, threshold, all, any, nil, cons, Rule, EvalState, no_limits, eval_f64,
}
use aether_terminal.Analyze.Rules.Condition.{last_value}
use aether_terminal.Analyze.Rules.Engine.{RuleEngine, evaluate}
use aether_terminal.Analyze.Rules.Instant.{IsInstant, holds}
use aether_terminal.Analyze.Rules.Firing.{label, IsInstantRule, firing, evaluate-firing}
use aether_terminal.Analyze.Rules.Sustained.{
  Tested, observe, observe-sustained, eval, eval_any-shared_timer,
}

abbrev high : String → Option ℕ → RuleCondition
high metric sustained = threshold metric gt 80 sustained

abbrev both : RuleCondition
both = all (cons (high "cpu_percent" none) (cons (high "mem_percent" none) nil))

abbrev rule : String → Bool → RuleCondition → Rule
rule id enabled condition = record {
  id = id;
  name = id;
  category = cpu_spike;
  default_severity = warning;
  condition = condition;
  enabled = enabled;
}

abbrev rules : List Rule
rules =
    rule "cpu" true (high "cpu_percent" none)
    ∷ rule "both" true both
    ∷ rule "off" false (high "cpu_percent" none)
    ∷ []

abbrev engine : RuleEngine
engine = record { rules = rules; sustained_state = [] }

-- The two metrics of process 7.
abbrev measured : ℕ → ℕ → MetricStore
measured cpu mem =
    push_metric "local" (some 7) "mem_percent" 1 mem
      (push_metric "local" (some 7) "cpu_percent" 1 cpu (new_store 10))

-- A reading of the clock for each second.
abbrev seconds : ℕ → ℕ
seconds k = k * 1000000000

rules-IsInstant : All IsInstantRule rules
unfolding IsInstantRule IsInstant
rules-IsInstant = (refl, ((refl, (refl, tt)), (refl, tt)))

evaluate-firing_example :
    map label ((evaluate numbers seconds (measured 90 10) "local" [] engine 0).0)
    ≡ firing numbers seconds
        (measured 90 10)
        "local"
        []
        (process_pids "local" (measured 90 10))
        rules
evaluate-firing_example =
    evaluate-firing numbers seconds (measured 90 10) "local" [] engine 0 rules-IsInstant

fired :
    firing numbers seconds (measured 90 10) "local" [] (process_pids "local" (measured 90 10)) rules
    ≡ ("cpu", process 7 "") ∷ []
unfolding firing process_pids push_metric insert new_store holds last_value get lookup last f64_le
fired = refl

low-Tested :
    Tested numbers seconds "local" 7 no_limits "cpu" (measured 10 90) "cpu_percent" gt 80 false
unfolding last_value get lookup push_metric insert new_store eval_f64 last f64_le
low-Tested = record { current = 10; present = refl; result = refl }

high-Tested :
    Tested numbers seconds "local" 7 no_limits "cpu" (measured 90 10) "cpu_percent" gt 80 true
unfolding last_value get lookup push_metric insert new_store eval_f64 last f64_le
high-Tested = record { current = 90; present = refl; result = refl }

mem-Tested :
    Tested numbers seconds "local" 7 no_limits "cpu" (measured 10 90) "mem_percent" gt 80 true
unfolding last_value get lookup push_metric insert new_store eval_f64 last f64_le
mem-Tested = record { current = 90; present = refl; result = refl }

abbrev start : EvalState
start = record { sustained = []; reads = 5; matched = [] }

observe-sustained_example :
    observe numbers seconds "local" 7 no_limits "cpu"
      (measured 10 90 ∷ measured 90 10 ∷ measured 90 10 ∷ measured 90 10 ∷ [])
      (threshold "cpu_percent" gt 80 (some 2000000000))
      start
    ≡ leb 2000000000 (seconds 7 - seconds 5)
observe-sustained_example =
    observe-sustained numbers seconds "local" 7 no_limits "cpu" (measured 10 90) (measured 90 10)
      (measured 90 10 ∷ measured 90 10 ∷ []) "cpu_percent" gt 80 2000000000 start low-Tested
      (high-Tested, (high-Tested, (high-Tested, tt)))

eval_any-shared_timer_example :
    (eval numbers seconds "local" 7 no_limits "cpu"
      (measured 10 90)
      (any (cons (high "cpu_percent" none) (cons (high "mem_percent" (some 60)) nil)))
      start).0
    ≡ false
eval_any-shared_timer_example =
    eval_any-shared_timer numbers seconds "local" 7 no_limits "cpu" (measured 10 90) "cpu_percent"
      "mem_percent" gt gt 80 80 none 60 start (omega arith) low-Tested mem-Tested
