-- ===== src/Analyze/Rules/Condition.antt =====
-- `eval_condition` of `aether-analyze/src/rules/engine.rs`. The readings of the clock are a
-- parameter: the state counts them, and `clock` gives each its value.
use aether_terminal.Prelude.{
  ◌≡◌, refl, ◌&&◌, ◌||◌, if◌then◌else◌, ℕ, suc, ◌+◌, ◌-◌, Bool, true, false, not, if◌then◌else◌,
  length, leb, ◌*◌, String, Option, none, some, pair_eq, nat_eq, F64, f64_le,
}
use aether_terminal.Prelude.Map.{lookup, insert}
use aether_terminal.Core.Metrics.{Floats, HostId, f64_lt, last}
use aether_terminal.Analyze.Store.{MetricStore, get}
use aether_terminal.Analyze.Trend.{slope}
use aether_terminal.Analyze.Rules.Types.{
  RuleCondition, Conditions, threshold, rate_of_change, capacity_percent, count, rate_change,
  growth_trend, all, any, nil, cons, ProcessLimits, EvalState, eval_u64, metric_key, push_match,
  clear_sustained, recent_samples, eval_f64, limit_of, is_triggered, change_of,
}

unfoldable pub last_value : MetricStore → HostId → ℕ → String → Option F64
last_value store host pid metric = elim (get host (some pid) metric store) [
  | none ↦ none
  | some series ↦ elim (last series) [ none ↦ none | some s ↦ some s.value ]
]

-- A missing value makes a condition false and changes nothing.
abbrev pub if_present :
    {A : Type 0} → Option A → EvalState → (A → Bool × EvalState) → Bool × EvalState
if_present none s test = (false, s)
if_present (some a) s test = test a

-- The rounds after one that is met, or not: they start from its state.
abbrev pub and_then : Bool × EvalState → (EvalState → Bool × EvalState) → Bool × EvalState
and_then (true, s) rounds = rounds s
and_then (false, s) rounds = (false, s)

abbrev pub or_then : Bool × EvalState → (EvalState → Bool × EvalState) → Bool × EvalState
or_then (true, s) rounds = (true, s)
or_then (false, s) rounds = rounds s

pub and_then_lem :
    (r : Bool × EvalState) (rounds : EvalState → Bool × EvalState)
    → (and_then r rounds).0 ≡ (if r.0 then (rounds r.1).0 else false)
and_then_lem (true, s) rounds = refl
and_then_lem (false, s) rounds = refl

pub or_then_lem :
    (r : Bool × EvalState) (rounds : EvalState → Bool × EvalState)
    → (or_then r rounds).0 ≡ (if r.0 then true else (rounds r.1).0)
or_then_lem (true, s) rounds = refl
or_then_lem (false, s) rounds = refl

pub if-and : (b c : Bool) → (if b then c else false) ≡ (b && c)
if-and true c = refl
if-and false c = refl

pub if-or : (b c : Bool) → (if b then true else c) ≡ (b || c)
if-or true c = refl
if-or false c = refl

-- `EvalCtx`, with the clock.
module _ (f : Floats) (clock : ℕ → ℕ) (store : MetricStore) (host : HostId) (pid : ℕ)
    (limits : ProcessLimits) (rule_id : String) where
  -- `true` when the condition was first seen at least `required` ago.
  unfoldable pub check_sustained : ℕ → EvalState → Bool × EvalState
  check_sustained required s =
      let now = clock s.reads in
      elim (lookup (rule_id, pid) s.sustained) [
        | some first_seen ↦ (leb required (now - first_seen), record s { reads = suc s.reads })
        | none ↦ (
          leb required 0,
          record s { sustained = insert (rule_id, pid) now s.sustained; reads = suc s.reads },
        )
      ]

  unfoldable pub if_sustained : Option ℕ → EvalState → Bool × EvalState
  unfolding check_sustained
  if_sustained none s = (true, s)
  if_sustained (some required) s = check_sustained required s

  -- A test of a value that may be kept up for a time: a failed test clears the timer.
  unfoldable pub timed : Bool → String → F64 → Option ℕ → EvalState → Bool × EvalState
  unfolding clear_sustained push_match if_sustained
  timed false metric v sustained s = (false, clear_sustained rule_id pid s)
  timed true metric v sustained s = if_sustained sustained (push_match metric v s)

  -- A test of a value at this moment.
  unfoldable pub tested : Bool → String → F64 → EvalState → Bool × EvalState
  unfolding push_match
  tested false metric v s = (false, s)
  tested true metric v s = (true, push_match metric v s)

  unfoldable pub capacity_test : String → F64 → F64 → Option F64 → EvalState → Bool × EvalState
  unfolding tested f64_lt
  capacity_test metric percent current none s = (false, s)
  capacity_test metric percent current (some limit) s =
      if f64_lt f.zero limit
      then (let usage_pct = f.mul (f.div current limit) f.hundred in
          tested (not (f64_lt usage_pct percent)) metric usage_pct s)
      else (false, s)

  unfoldable mutual
    unfolding last_value timed tested eval_f64 eval_u64 limit_of metric_key capacity_test slope
        recent_samples change_of is_triggered f64_lt

    pub eval_condition : RuleCondition → EvalState → Bool × EvalState
    eval_condition (threshold metric op value sustained) s =
        if_present (last_value store host pid metric) s
          (λ current. timed (eval_f64 f op current value) metric current sustained s)
    eval_condition (rate_of_change metric rate_per_sec sustained) s =
        if_present (get host (some pid) metric store) s (λ series.
          let rate = slope f series 60000000000 in
          timed (not (f64_lt rate rate_per_sec)) metric rate sustained s)
    eval_condition (capacity_percent metric limit_source percent) s =
        if_present (last_value store host pid metric) s
          (λ current. capacity_test metric percent current (limit_of f limit_source limits) s)
    eval_condition (count counter op value) s =
        if_present (last_value store host pid (metric_key counter)) s
          (λ current. tested (eval_u64 op (f.to_u64 current) value) (metric_key counter) current s)
    eval_condition (rate_change metric window_secs threshold_percent) s =
        if_present (get host (some pid) metric store) s (λ series.
          let read = record s { reads = s.reads + length series.samples } in
          let window = window_secs * 1000000000 in
          if_present (change_of f (recent_samples clock s.reads window series.samples)) read
            (λ change. tested (is_triggered f threshold_percent change) metric change read))
    eval_condition (growth_trend metric window_secs slope_threshold sustained) s =
        if_present (get host (some pid) metric store) s (λ series.
          let rate = slope f series (window_secs * 1000000000) in
          timed (not (f64_le rate slope_threshold)) metric rate sustained s)
    eval_condition (all conditions) s = eval_all conditions s
    eval_condition (any conditions) s = eval_any conditions s

    pub eval_all : Conditions → EvalState → Bool × EvalState
    eval_all nil s = (true, s)
    eval_all (cons c conditions) s = and_then (eval_condition c s) (eval_all conditions)

    pub eval_any : Conditions → EvalState → Bool × EvalState
    eval_any nil s = (false, s)
    eval_any (cons c conditions) s = or_then (eval_condition c s) (eval_any conditions)
