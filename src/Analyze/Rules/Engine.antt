-- ===== src/Analyze/Rules/Engine.antt =====
-- `RuleEngine` of `aether-analyze/src/rules/engine.rs`.
use aether_terminal.Prelude.{
  ℕ, Bool, true, false, if◌then◌else◌, List, [], ◌∷◌, ◌++◌, String, str_eq, none, some, pair_eq,
  nat_eq, F64,
}
use aether_terminal.Prelude.Map.{Map, lookup}
use aether_terminal.Core.Metrics.{Floats, HostId}
use aether_terminal.Analyze.Correlator.{process}
use aether_terminal.Analyze.Store.{MetricStore, process_pids}
use aether_terminal.Analyze.Rules.Types.{Rule, RuleFinding, ProcessLimits, no_limits, EvalState}
use aether_terminal.Analyze.Rules.Condition.{eval_condition}

pub record RuleEngine : Type 0 where
  pub rules : List Rule
  pub sustained_state : Map (String × ℕ) ℕ

abbrev pub new_engine : RuleEngine
new_engine = record { rules = []; sustained_state = [] }

unfoldable pub add_rule : Rule → RuleEngine → RuleEngine
add_rule rule e = record e { rules = e.rules ++ rule ∷ [] }

-- Disables the first rule with the id, and tells whether there is one.
unfoldable pub disable_first : String → List Rule → List Rule × Bool
disable_first id [] = ([], false)
disable_first id (rule ∷ rules) =
    let rest = disable_first id rules in
    if str_eq rule.id id
    then (record rule { enabled = false } ∷ rules, true)
    else (rule ∷ rest.0, rest.1)

unfoldable pub disable_rule : String → RuleEngine → RuleEngine × Bool
unfolding disable_first
disable_rule id e = let r = disable_first id e.rules in (record e { rules = r.0 }, r.1)

unfoldable pub limits_at : ℕ → Map ℕ ProcessLimits → ProcessLimits
limits_at pid limits_map = elim (lookup pid limits_map) [ none ↦ no_limits | some l ↦ l ]

unfoldable pub finding_of : Rule → ℕ → List (String × F64) → RuleFinding
finding_of rule pid matched_values = record {
  rule_id = rule.id;
  rule_name = rule.name;
  target = process pid "";
  severity = rule.default_severity;
  category = rule.category;
  matched_values = matched_values;
}

-- The timers and the count of clock readings, which go from one evaluation to the next.
pub record Timers : Type 0 where
  pub sustained : Map (String × ℕ) ℕ
  pub reads : ℕ

module _ (f : Floats) (clock : ℕ → ℕ) (store : MetricStore) (host : HostId)
    (limits_map : Map ℕ ProcessLimits) where
  -- The condition of one rule for one process.
  unfoldable pub eval_rule : ℕ → Rule → Timers → Bool × EvalState
  unfolding eval_condition limits_at
  eval_rule pid rule t =
      eval_condition f clock store host pid (limits_at pid limits_map) rule.id rule.condition
        (record { sustained = t.sustained; reads = t.reads; matched = [] })

  abbrev pub timers_of : EvalState → Timers
  timers_of s = record { sustained = s.sustained; reads = s.reads }

  -- What one rule adds to the findings of the rules after it.
  abbrev pub with_finding :
      Rule → ℕ → Bool × EvalState → List RuleFinding × Timers → List RuleFinding × Timers
  with_finding rule pid (true, s) (findings, t) = (finding_of rule pid s.matched ∷ findings, t)
  with_finding rule pid (false, s) (findings, t) = (findings, t)

  -- The loop over the rules for one process, in the order of the rules.
  unfoldable pub eval_rules : ℕ → List Rule → Timers → List RuleFinding × Timers
  unfolding eval_rule finding_of
  eval_rules pid [] t = ([], t)
  eval_rules pid (rule ∷ rules) t = elim rule.enabled [
    | false ↦ eval_rules pid rules t
    | true ↦
        (let r = eval_rule pid rule t in
          with_finding rule pid r (eval_rules pid rules (timers_of r.1)))
  ]

  unfoldable pub eval_pids : List ℕ → List Rule → Timers → List RuleFinding × Timers
  unfolding eval_rules
  eval_pids [] rules t = ([], t)
  eval_pids (pid ∷ pids) rules t =
      let one = eval_rules pid rules t in
      let rest = eval_pids pids rules one.1 in (one.0 ++ rest.0, rest.1)

  -- The pids are those of the host, in the order in which the store's set gives them.
  unfoldable pub evaluate : RuleEngine → ℕ → List RuleFinding × RuleEngine × ℕ
  unfolding eval_pids
  evaluate e reads =
      let r =
        eval_pids (process_pids host store) e.rules
          (record { sustained = e.sustained_state; reads = reads }) in
      (r.0, record e { sustained_state = r.1.sustained }, r.1.reads)
