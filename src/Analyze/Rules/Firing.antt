-- ===== src/Analyze/Rules/Firing.antt =====
-- What a whole evaluation finds for rules without a time.
use aether_terminal.Prelude.{
  ℕ, ◌≡◌, refl, ap, ◌∙◌, Bool, true, false, ◌&&◌, if◌then◌else◌, List, [], ◌∷◌, ◌++◌, map, String,
  All, Bool-cases, inl, inr,
}
use aether_terminal.Prelude.Map.{Map}
use aether_terminal.Core.Metrics.{Floats, HostId}
use aether_terminal.Analyze.Correlator.{DiagTarget, process}
use aether_terminal.Analyze.Store.{MetricStore, process_pids}
use aether_terminal.Analyze.Rules.Types.{Rule, RuleFinding, ProcessLimits, EvalState}
use aether_terminal.Analyze.Rules.Engine.{
  RuleEngine, Timers, limits_at, finding_of, eval_rule, timers_of, with_finding, eval_rules,
  eval_pids, evaluate,
}
use aether_terminal.Analyze.Rules.Instant.{IsInstant, holds, eval_condition-holds}

-- The rule and the target of a finding.
abbrev pub label : RuleFinding → String × DiagTarget
label x = (x.rule_id, x.target)

unfoldable pub IsInstantRule : Rule → Type 0
IsInstantRule rule = IsInstant rule.condition

map-append : (xs ys : List RuleFinding) → map label (xs ++ ys) ≡ map label xs ++ map label ys
map-append [] ys = refl
map-append (x ∷ xs) ys = ap (λ t. label x ∷ t) (map-append xs ys)

module _ (f : Floats) (clock : ℕ → ℕ) (store : MetricStore) (host : HostId)
    (limits_map : Map ℕ ProcessLimits) where
  -- The enabled rules whose conditions hold for a process.
  unfoldable pub firing_rules : ℕ → List Rule → List (String × DiagTarget)
  firing_rules pid [] = []
  firing_rules pid (rule ∷ rules) =
      let rest = firing_rules pid rules in
      if rule.enabled && holds f store host pid (limits_at pid limits_map) rule.condition
      then (rule.id, process pid "") ∷ rest
      else rest

  unfoldable pub firing : List ℕ → List Rule → List (String × DiagTarget)
  unfolding firing_rules
  firing [] rules = []
  firing (pid ∷ pids) rules = firing_rules pid rules ++ firing pids rules

  with_finding-label :
      (rule : Rule) (pid : ℕ) (r : Bool × EvalState) (rest : List RuleFinding × Timers)
      → map label ((with_finding f clock store host limits_map rule pid r rest).0)
        ≡ (if r.0 then (rule.id, process pid "") ∷ map label rest.0 else map label rest.0)
  unfolding finding_of
  with_finding-label rule pid (true, s) (findings, t) = refl
  with_finding-label rule pid (false, s) (findings, t) = refl

  eval_rule-holds :
      (pid : ℕ) (rule : Rule) (t : Timers)
      → IsInstantRule rule
      → (eval_rule f clock store host limits_map pid rule t).0
        ≡ holds f store host pid (limits_at pid limits_map) rule.condition
  unfolding eval_rule IsInstantRule
  eval_rule-holds pid rule t h =
      eval_condition-holds f store host pid (limits_at pid limits_map) clock rule.id rule.condition
        (record { sustained = t.sustained; reads = t.reads; matched = [] }) h

  eval_rules-firing :
      (pid : ℕ) (rules : List Rule) (t : Timers)
      → All IsInstantRule rules
      → map label ((eval_rules f clock store host limits_map pid rules t).0)
        ≡ firing_rules pid rules
  unfolding eval_rules firing_rules IsInstantRule
  eval_rules-firing pid [] t hs = refl
  eval_rules-firing pid (rule ∷ rules) t (h, hs) = elim (Bool-cases rule.enabled) [
    | inl e ↦
        rw (e, eval_rules)
          (let r = eval_rule f clock store host limits_map pid rule t in
            let rest =
              eval_rules f clock store host limits_map pid rules
                (timers_of f clock store host limits_map r.1) in
            with_finding-label rule pid r rest
            ∙ rw
                (
                  eval_rule-holds pid rule t h,
                  eval_rules-firing pid rules (timers_of f clock store host limits_map r.1) hs,
                )
                refl)
    | inr e ↦ rw (e, eval_rules) (eval_rules-firing pid rules t hs)
  ]

  eval_pids-firing :
      (pids : List ℕ) (rules : List Rule) (t : Timers)
      → All IsInstantRule rules
      → map label ((eval_pids f clock store host limits_map pids rules t).0) ≡ firing pids rules
  unfolding eval_pids firing
  eval_pids-firing [] rules t hs = refl
  eval_pids-firing (pid ∷ pids) rules t hs =
      let one = eval_rules f clock store host limits_map pid rules t in
      map-append one.0 ((eval_pids f clock store host limits_map pids rules one.1).0)
      ∙ rw (eval_rules-firing pid rules t hs, eval_pids-firing pids rules one.1 hs) refl

  -- For rules whose conditions involve no time, an evaluation finds for each process of the host,
  -- in the order of the rules, exactly the enabled rules whose condition holds of the latest
  -- values, whatever the timers were.
  pub evaluate-firing :
      (e : RuleEngine) (reads : ℕ)
      → All IsInstantRule e.rules
      → map label ((evaluate f clock store host limits_map e reads).0)
        ≡ firing (process_pids host store) e.rules
  unfolding evaluate
  evaluate-firing e reads hs =
      eval_pids-firing (process_pids host store) e.rules
        (record { sustained = e.sustained_state; reads = reads }) hs
