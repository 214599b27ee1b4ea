-- ===== src/Analyze/Rules/Instant.antt =====
-- Rules without a time: what they mean, and that an evaluation finds exactly where they hold.
use aether_terminal.Prelude.{
  ℕ, ◌*◌, ◌≡◌, refl, ◌∙◌, Bool, true, false, not, ◌&&◌, ◌||◌, String, Option, none, some, F64,
  f64_le, Bool-cases, Option-cases, inl, inr,
}
use aether_terminal.Core.Metrics.{Floats, HostId, f64_lt}
use aether_terminal.Analyze.Store.{MetricStore, get}
use aether_terminal.Analyze.Trend.{slope}
use aether_terminal.Analyze.Rules.Types.{
  CompareOp, LimitSource, CounterType, RuleCondition, Conditions, threshold, rate_of_change,
  capacity_percent, count, rate_change, growth_trend, all, any, nil, cons, ProcessLimits, EvalState,
  eval_u64, metric_key, eval_f64, limit_of,
}
use aether_terminal.Analyze.Rules.Condition.{
  and_then_lem, or_then_lem, if-and, if-or, last_value, if_sustained, timed, tested, capacity_test,
  eval_condition, eval_all, eval_any,
}

-- A condition that no time enters: no part is to be kept up, none compares halves of a window.
unfoldable mutual
  pub IsInstant : RuleCondition → Type 0
  IsInstant (threshold metric op value sustained) = sustained ≡ none
  IsInstant (rate_of_change metric rate_per_sec sustained) = sustained ≡ none
  IsInstant (capacity_percent metric limit_source percent) = Unit
  IsInstant (count counter op value) = Unit
  IsInstant (rate_change metric window_secs threshold_percent) = ⊥
  IsInstant (growth_trend metric window_secs slope_threshold sustained) = sustained ≡ none
  IsInstant (all conditions) = AreInstant conditions
  IsInstant (any conditions) = AreInstant conditions

  pub AreInstant : Conditions → Type 0
  AreInstant nil = Unit
  AreInstant (cons c conditions) = IsInstant c × AreInstant conditions

-- A test of an optional value, which fails without one.
abbrev pub on_value : {A : Type 0} → Option A → (A → Bool) → Bool
on_value none test = false
on_value (some a) test = test a

module _ (f : Floats) (store : MetricStore) (host : HostId) (pid : ℕ) (limits : ProcessLimits) where
  -- The series of a metric of the process, and its latest value.
  abbrev pub value_of : String → Option F64
  value_of metric = last_value store host pid metric

  unfoldable mutual
    unfolding eval_f64 eval_u64 metric_key limit_of f64_lt slope

    pub holds : RuleCondition → Bool
    holds (threshold metric op value sustained) =
        on_value (value_of metric) (λ current. eval_f64 f op current value)
    holds (rate_of_change metric rate_per_sec sustained) =
        on_value (get host (some pid) metric store)
          (λ series. not (f64_lt (slope f series 60000000000) rate_per_sec))
    holds (capacity_percent metric limit_source percent) = on_value (value_of metric) (λ current.
        on_value (limit_of f limit_source limits) (λ limit.
          f64_lt f.zero limit && not (f64_lt (f.mul (f.div current limit) f.hundred) percent)))
    holds (count counter op value) =
        on_value (value_of (metric_key counter)) (λ current. eval_u64 op (f.to_u64 current) value)
    holds (rate_change metric window_secs threshold_percent) = false
    holds (growth_trend metric window_secs slope_threshold sustained) =
        on_value (get host (some pid) metric store)
          (λ series. not (f64_le (slope f series (window_secs * 1000000000)) slope_threshold))
    holds (all conditions) = all_hold conditions
    holds (any conditions) = any_holds conditions

    pub all_hold : Conditions → Bool
    all_hold nil = true
    all_hold (cons c conditions) = holds c && all_hold conditions

    pub any_holds : Conditions → Bool
    any_holds nil = false
    any_holds (cons c conditions) = holds c || any_holds conditions

  module _ (clock : ℕ → ℕ) (rule_id : String) where
    timed-none :
        (b : Bool) (metric : String) (v : F64) (sustained : Option ℕ) (s : EvalState)
        → sustained ≡ none
        → (timed f clock store host pid limits rule_id b metric v sustained s).0 ≡ b
    unfolding timed if_sustained
    timed-none false metric v sustained s e = refl
    timed-none true metric v sustained s e = rw e refl

    tested_lem :
        (b : Bool) (metric : String) (v : F64) (s : EvalState)
        → (tested f clock store host pid limits rule_id b metric v s).0 ≡ b
    unfolding tested
    tested_lem false metric v s = refl
    tested_lem true metric v s = refl

    capacity_test_lem :
        (metric : String) (percent current : F64) (limit : Option F64) (s : EvalState)
        → (capacity_test f clock store host pid limits rule_id metric percent current limit s).0
          ≡ on_value limit
              (λ l. f64_lt f.zero l && not (f64_lt (f.mul (f.div current l) f.hundred) percent))
    unfolding capacity_test
    capacity_test_lem metric percent current none s = refl
    capacity_test_lem metric percent current (some l) s = elim (Bool-cases (f64_lt f.zero l)) [
      | inl b ↦
          rw (b, capacity_test)
            (tested_lem (not (f64_lt (f.mul (f.div current l) f.hundred) percent)) metric
              (f.mul (f.div current l) f.hundred) s)
      | inr b ↦ rw (b, capacity_test) refl
    ]

    abbrev eval : RuleCondition → EvalState → Bool × EvalState
    eval = eval_condition f clock store host pid limits rule_id

    eval-threshold :
        (metric : String) (op : CompareOp) (value : F64) (sustained : Option ℕ) (s : EvalState)
        → sustained ≡ none
        → (eval (threshold metric op value sustained) s).0
          ≡ holds (threshold metric op value sustained)
    unfolding eval_condition holds
    eval-threshold metric op value sustained s h = elim (Option-cases (value_of metric)) [
      | inl e ↦ rw e refl
      | inr x ↦
          let (current, e) = x in
          rw e (timed-none (eval_f64 f op current value) metric current sustained s h)
    ]

    eval-rate_of_change :
        (metric : String) (rate_per_sec : F64) (sustained : Option ℕ) (s : EvalState)
        → sustained ≡ none
        → (eval (rate_of_change metric rate_per_sec sustained) s).0
          ≡ holds (rate_of_change metric rate_per_sec sustained)
    unfolding eval_condition holds
    eval-rate_of_change metric rate_per_sec sustained s h =
        elim (Option-cases (get host (some pid) metric store)) [
          | inl e ↦ rw e refl
          | inr x ↦
              let (series, e) = x in
              rw e (
                timed-none (not (f64_lt (slope f series 60000000000) rate_per_sec)) metric
                  (slope f series 60000000000) sustained s h)
        ]

    eval-growth_trend :
        (metric : String) (window_secs : ℕ) (slope_threshold : F64) (sustained : Option ℕ)
        (s : EvalState)
        → sustained ≡ none
        → (eval (growth_trend metric window_secs slope_threshold sustained) s).0
          ≡ holds (growth_trend metric window_secs slope_threshold sustained)
    unfolding eval_condition holds
    eval-growth_trend metric window_secs slope_threshold sustained s h =
        elim (Option-cases (get host (some pid) metric store)) [
          | inl e ↦ rw e refl
          | inr x ↦
              let (series, e) = x in
              rw e (
                timed-none
                  (not (f64_le (slope f series (window_secs * 1000000000)) slope_threshold)) metric
                  (slope f series (window_secs * 1000000000)) sustained s h)
        ]

    eval-capacity_percent :
        (metric : String) (limit_source : LimitSource) (percent : F64) (s : EvalState)
        → (eval (capacity_percent metric limit_source percent) s).0
          ≡ holds (capacity_percent metric limit_source percent)
    unfolding eval_condition holds
    eval-capacity_percent metric limit_source percent s = elim (Option-cases (value_of metric)) [
      | inl e ↦ rw e refl
      | inr x ↦
          let (current, e) = x in
          rw e (capacity_test_lem metric percent current (limit_of f limit_source limits) s)
    ]

    eval-count :
        (counter : CounterType) (op : CompareOp) (value : ℕ) (s : EvalState)
        → (eval (count counter op value) s).0 ≡ holds (count counter op value)
    unfolding eval_condition holds
    eval-count counter op value s = elim (Option-cases (value_of (metric_key counter))) [
      | inl e ↦ rw e refl
      | inr x ↦
          let (current, e) = x in
          rw e (tested_lem (eval_u64 op (f.to_u64 current) value) (metric_key counter) current s)
    ]

    mutual
      unfolding eval_condition holds IsInstant

      pub eval_condition-holds :
          (c : RuleCondition) (s : EvalState) → IsInstant c → (eval c s).0 ≡ holds c
      eval_condition-holds (threshold metric op value sustained) s h =
          eval-threshold metric op value sustained s h
      eval_condition-holds (rate_of_change metric rate sustained) s h =
          eval-rate_of_change metric rate sustained s h
      eval_condition-holds (capacity_percent metric source percent) s h =
          eval-capacity_percent metric source percent s
      eval_condition-holds (count counter op value) s h = eval-count counter op value s
      eval_condition-holds (rate_change metric window_secs percent) s h = absurd h
      eval_condition-holds (growth_trend metric window_secs rate sustained) s h =
          eval-growth_trend metric window_secs rate sustained s h
      eval_condition-holds (all conditions) s h = eval_all-holds conditions s h
      eval_condition-holds (any conditions) s h = eval_any-holds conditions s h

      eval_all-holds :
          (cs : Conditions) (s : EvalState)
          → AreInstant cs
          → (eval_all f clock store host pid limits rule_id cs s).0 ≡ all_hold cs
      eval_all-holds nil s h = refl
      eval_all-holds (cons c cs) s (h, hs) =
          and_then_lem (eval c s) (eval_all f clock store host pid limits rule_id cs)
          ∙ rw (eval_condition-holds c s h, eval_all-holds cs ((eval c s).1) hs)
              (if-and (holds c) (all_hold cs))

      eval_any-holds :
          (cs : Conditions) (s : EvalState)
          → AreInstant cs
          → (eval_any f clock store host pid limits rule_id cs s).0 ≡ any_holds cs
      eval_any-holds nil s h = refl
      eval_any-holds (cons c cs) s (h, hs) =
          or_then_lem (eval c s) (eval_any f clock store host pid limits rule_id cs)
          ∙ rw (eval_condition-holds c s h, eval_any-holds cs ((eval c s).1) hs)
              (if-or (holds c) (any_holds cs))
