-- ===== src/Analyze/Rules/Types.antt =====
-- `aether-analyze/src/rules/types.rs`: the rules and their comparisons, and the parts of
-- `eval_condition` of rules/engine.rs that only compute.
use aether_terminal.Prelude.{
  ℕ, suc, ◌-◌, Bool, if◌then◌else◌, List, [], ◌∷◌, ◌++◌, length, take, drop, map, ltb, leb, ◌==◌,
  ◌/◌, String, Option, none, some, pair_eq, nat_eq, F64, f64_le,
}
use aether_terminal.Prelude.Map.{Map, remove}
use aether_terminal.Core.Metrics.{Floats, MetricSample, f64_lt}
use aether_terminal.Game.Xp.{Severity}
use aether_terminal.Analyze.Correlator.{DiagTarget, DiagCategory}

pub data CompareOp : Type 0 where
  gt gte lt lte eq : CompareOp

pub data LimitSource : Type 0 where
  cgroup_memory_max cgroup_cpu_quota cgroup_pids_max disk_total : LimitSource
  ulimit : String → LimitSource
  custom : F64 → LimitSource

pub data CounterType : Type 0 where
  zombie_processes restart_count open_fds thread_count oom_kills : CounterType
  d_state_processes listen_queue_overflows : CounterType

mutual
  pub data RuleCondition : Type 0 where
    threshold :
        (metric : String) (op : CompareOp) (value : F64) (sustained : Option ℕ) → RuleCondition
    rate_of_change : (metric : String) (rate_per_sec : F64) (sustained : Option ℕ) → RuleCondition
    capacity_percent :
        (metric : String) (limit_source : LimitSource) (percent : F64) → RuleCondition
    count : (counter : CounterType) (op : CompareOp) (value : ℕ) → RuleCondition
    rate_change : (metric : String) (window_secs : ℕ) (threshold_percent : F64) → RuleCondition
    growth_trend :
        (metric : String) (window_secs : ℕ) (slope_threshold : F64) (sustained : Option ℕ)
        → RuleCondition
    all any : Conditions → RuleCondition

  pub data Conditions : Type 0 where
    nil : Conditions
    cons : RuleCondition → Conditions → Conditions

pub record Rule : Type 0 where
  pub id : String
  pub name : String
  pub category : DiagCategory
  pub default_severity : Severity
  pub condition : RuleCondition
  pub enabled : Bool

pub record RuleFinding : Type 0 where
  pub rule_id : String
  pub rule_name : String
  pub target : DiagTarget
  pub severity : Severity
  pub category : DiagCategory
  pub matched_values : List (String × F64)

pub record ProcessLimits : Type 0 where
  pub cgroup_memory_max : Option ℕ
  pub cgroup_cpu_quota : Option ℕ
  pub cgroup_pids_max : Option ℕ
  pub ulimit_nofile : Option ℕ
  pub disk_total : Option ℕ

abbrev pub no_limits : ProcessLimits
no_limits = record {
  cgroup_memory_max = none;
  cgroup_cpu_quota = none;
  cgroup_pids_max = none;
  ulimit_nofile = none;
  disk_total = none;
}

-- What an evaluation changes: the timers, the count of clock readings, the matched values.
pub record EvalState : Type 0 where
  pub sustained : Map (String × ℕ) ℕ
  pub reads : ℕ
  pub matched : List (String × F64)

unfoldable pub eval_u64 : CompareOp → ℕ → ℕ → Bool
eval_u64 gt lhs rhs = ltb rhs lhs
eval_u64 gte lhs rhs = leb rhs lhs
eval_u64 lt lhs rhs = ltb lhs rhs
eval_u64 lte lhs rhs = leb lhs rhs
eval_u64 eq lhs rhs = lhs == rhs

unfoldable pub metric_key : CounterType → String
metric_key zombie_processes = "zombie_count"
metric_key restart_count = "restart_count"
metric_key open_fds = "open_fds"
metric_key thread_count = "thread_count"
metric_key oom_kills = "oom_kills"
metric_key d_state_processes = "dstate_count"
metric_key listen_queue_overflows = "listen_queue_overflows"

-- `matched_values.push(…)`.
unfoldable pub push_match : String → F64 → EvalState → EvalState
push_match metric v s = record s { matched = s.matched ++ (metric, v) ∷ [] }

unfoldable pub clear_sustained : String → ℕ → EvalState → EvalState
clear_sustained rule_id pid s = record s { sustained = remove (rule_id, pid) s.sustained }

-- The samples whose age is within the window; each age is one reading of the clock.
unfoldable pub recent_samples : (ℕ → ℕ) → ℕ → ℕ → List MetricSample → List MetricSample
recent_samples clock reads window [] = []
recent_samples clock reads window (s ∷ samples) =
    let rest = recent_samples clock (suc reads) window samples in
    if leb (clock reads - s.timestamp) window then s ∷ rest else rest

module _ (f : Floats) where
  unfoldable pub as_f64 : Option ℕ → Option F64
  as_f64 none = none
  as_f64 (some v) = some (f.of_nat v)

  unfoldable pub eval_f64 : CompareOp → F64 → F64 → Bool
  unfolding f64_lt
  eval_f64 gt lhs rhs = f64_lt rhs lhs
  eval_f64 gte lhs rhs = f64_le rhs lhs
  eval_f64 lt lhs rhs = f64_lt lhs rhs
  eval_f64 lte lhs rhs = f64_le lhs rhs
  eval_f64 eq lhs rhs = f64_lt (f.abs (f.sub lhs rhs)) f.epsilon

  unfoldable pub limit_of : LimitSource → ProcessLimits → Option F64
  unfolding as_f64
  limit_of cgroup_memory_max limits = as_f64 limits.cgroup_memory_max
  limit_of cgroup_cpu_quota limits = as_f64 limits.cgroup_cpu_quota
  limit_of cgroup_pids_max limits = as_f64 limits.cgroup_pids_max
  limit_of (ulimit name) limits = as_f64 limits.ulimit_nofile
  limit_of disk_total limits = as_f64 limits.disk_total
  limit_of (custom v) limits = some v

  -- `change_percent` against a threshold: drops for a negative one, else spikes.
  unfoldable pub is_triggered : F64 → F64 → Bool
  unfolding f64_lt
  is_triggered threshold_percent change_percent =
      if f64_lt threshold_percent f.zero
      then f64_le change_percent threshold_percent
      else f64_le threshold_percent change_percent

  unfoldable pub average : List MetricSample → F64
  average samples = f.div (f.sum (map (λ s. s.value) samples)) (f.of_nat (length samples))

  -- The change from the first half of the samples to the second, in percent of the first; none for
  -- fewer than two samples and for a first half about zero.
  unfoldable pub change_of : List MetricSample → Option F64
  unfolding f64_lt average
  change_of samples =
      if ltb (length samples) 2
      then none
      else (let mid = length samples / 2 in
          let first_half_avg = average (take mid samples) in
          let second_half_avg = average (drop mid samples) in
          if f64_lt (f.abs first_half_avg) f.epsilon
          then none
          else some (f.mul (f.div (f.sub second_half_avg first_half_avg) first_half_avg) f.hundred))
