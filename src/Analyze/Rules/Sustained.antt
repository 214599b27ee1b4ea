-- ===== src/Analyze/Rules/Sustained.antt =====
-- Conditions that must be kept up: the timer of a rule and a process.
use aether_terminal.Prelude.{
  ℕ, suc, ◌+◌, ◌-◌, ◌<◌, ◌≡◌, refl, sym, ap, ◌∙◌, Bool, true, false, leb, List, [], ◌∷◌, length,
  String, Option, none, some, pair_eq, F64, All, arith,
}
use aether_terminal.Prelude.Map.{lookup, insert, lookup-insert_self, lookup-remove_self}
use aether_terminal.Core.Metrics.{Floats, HostId}
use aether_terminal.Analyze.Store.{MetricStore}
use aether_terminal.Analyze.Rules.Types.{
  CompareOp, RuleCondition, threshold, any, nil, cons, ProcessLimits, EvalState, eval_f64,
  push_match, clear_sustained,
}
use aether_terminal.Analyze.Rules.Condition.{
  last_value, check_sustained, if_sustained, timed, eval_condition, eval_any, or_then,
}

module _ (f : Floats) (clock : ℕ → ℕ) (host : HostId) (pid : ℕ) (limits : ProcessLimits)
    (rule_id : String) where
  -- A threshold that the latest value of the metric passes, or fails.
  pub record Tested (store : MetricStore) (metric : String) (op : CompareOp) (value : F64)
      (b : Bool) : Type 0 where
    pub current : F64
    pub present : last_value store host pid metric ≡ some current
    pub result : eval_f64 f op current value ≡ b

  abbrev pub eval : MetricStore → RuleCondition → EvalState → Bool × EvalState
  eval store = eval_condition f clock store host pid limits rule_id

  abbrev pub timer : EvalState → Option ℕ
  timer s = lookup (rule_id, pid) s.sustained

  failed :
      (store : MetricStore) (metric : String) (op : CompareOp) (value : F64) (d : Option ℕ)
      (s : EvalState)
      → Tested store metric op value false
      → eval store (threshold metric op value d) s ≡ (false, clear_sustained rule_id pid s)
  unfolding eval_condition timed
  failed store metric op value d s t = rw (t.present, t.result) refl

  passed :
      (store : MetricStore) (metric : String) (op : CompareOp) (value : F64) (d : ℕ) (s : EvalState)
      (t : Tested store metric op value true)
      → eval store (threshold metric op value (some d)) s
        ≡ check_sustained f clock store host pid limits rule_id d (push_match metric t.current s)
  unfolding eval_condition timed if_sustained
  passed store metric op value d s t = rw (t.present, t.result) refl

  timer-clear : (s : EvalState) → timer (clear_sustained rule_id pid s) ≡ none
  unfolding clear_sustained
  timer-clear s = lookup-remove_self (rule_id, pid) s.sustained

  -- A check without a timer starts it at this reading, and a check with one keeps it.
  check_first :
      (store : MetricStore) (d : ℕ) (s : EvalState)
      → lookup (rule_id, pid) s.sustained ≡ none
      → check_sustained f clock store host pid limits rule_id d s ≡ (
        leb d 0,
        record s {
          sustained = insert (rule_id, pid) (clock s.reads) s.sustained;
          reads = suc s.reads;
        },
      )
  unfolding check_sustained
  check_first store d s e = rw (e, check_sustained) refl

  check_later :
      (store : MetricStore) (d first_seen : ℕ) (s : EvalState)
      → lookup (rule_id, pid) s.sustained ≡ some first_seen
      → check_sustained f clock store host pid limits rule_id d s
        ≡ (leb d (clock s.reads - first_seen), record s { reads = suc s.reads })
  unfolding check_sustained
  check_later store d first_seen s e = rw (e, check_sustained) refl

  same_reading : (n : ℕ) → 0 ≡ clock (n + 0) - clock n
  same_reading n =
      let e : n + 0 ≡ n = omega arith in
      let z : 0 ≡ clock n - clock n = omega arith in z ∙ ap (λ k. clock k - clock n) (sym e)

  -- Evaluations of one condition over a sequence of stores: the result of the last one.
  unfoldable pub observe : List MetricStore → RuleCondition → EvalState → Bool
  observe [] c s = false
  observe (store ∷ []) c s = (eval store c s).0
  observe (store ∷ next ∷ stores) c s = observe (next ∷ stores) c ((eval store c s).1)

  observe_running :
      (store : MetricStore) (stores : List MetricStore) (metric : String) (op : CompareOp)
      (value : F64) (d first_seen : ℕ) (s : EvalState)
      → timer s ≡ some first_seen
      → All (λ st. Tested st metric op value true) (store ∷ stores)
      → observe (store ∷ stores) (threshold metric op value (some d)) s
        ≡ leb d (clock (s.reads + length stores) - first_seen)
  unfolding observe push_match
  observe_running store [] metric op value d first_seen s e (t, ts) =
      let now =
        passed store metric op value d s t
        ∙ check_later store d first_seen (push_match metric t.current s) e in
      let reads : s.reads ≡ s.reads + 0 = omega arith in
      ap (λ r. r.0) now ∙ ap (λ k. leb d (clock k - first_seen)) reads
  observe_running store (next ∷ stores) metric op value d first_seen s e (t, ts) =
      let now =
        passed store metric op value d s t
        ∙ check_later store d first_seen (push_match metric t.current s) e in
      let after : EvalState = record (push_match metric t.current s) { reads = suc s.reads } in
      let reads : suc s.reads + length stores ≡ s.reads + suc (length stores) = omega arith in
      ap (λ r. observe (next ∷ stores) (threshold metric op value (some d)) r.1) now
      ∙ observe_running next stores metric op value d first_seen after e ts
      ∙ ap (λ k. leb d (clock k - first_seen)) reads

  -- A sustained threshold that fails at one evaluation and passes at all the later ones holds at
  -- the last of them exactly when the required time lies between the first reading of the clock
  -- after the failure and the last, whatever the timers were before.
  pub observe-sustained :
      (failing first : MetricStore) (stores : List MetricStore) (metric : String) (op : CompareOp)
      (value : F64) (d : ℕ) (s : EvalState)
      → Tested failing metric op value false
      → All (λ st. Tested st metric op value true) (first ∷ stores)
      → observe (failing ∷ first ∷ stores) (threshold metric op value (some d)) s
        ≡ leb d (clock (s.reads + length stores) - clock s.reads)
  unfolding observe push_match clear_sustained
  observe-sustained failing first [] metric op value d s missed (t, ts) =
      let c = clear_sustained rule_id pid s in
      let cond = threshold metric op value (some d) in
      let now =
        passed first metric op value d c t
        ∙ check_first first d (push_match metric t.current c) (timer-clear s) in
      let nothing : 0 ≡ clock (s.reads + 0) - clock s.reads = same_reading s.reads in
      ap (λ r. observe (first ∷ []) cond r.1) (failed failing metric op value (some d) s missed)
      ∙ ap (λ r. r.0) now
      ∙ ap (leb d) nothing
  observe-sustained failing first (next ∷ stores) metric op value d s missed (t, ts) =
      let c = clear_sustained rule_id pid s in
      let cond = threshold metric op value (some d) in
      let now =
        passed first metric op value d c t
        ∙ check_first first d (push_match metric t.current c) (timer-clear s) in
      let after : EvalState = record (push_match metric t.current c) {
        sustained = insert (rule_id, pid) (clock s.reads) c.sustained;
        reads = suc s.reads;
      } in
      let reads : suc s.reads + length stores ≡ s.reads + suc (length stores) = omega arith in
      ap (λ r. observe (first ∷ next ∷ stores) cond r.1)
        (failed failing metric op value (some d) s missed)
      ∙ ap (λ r. observe (next ∷ stores) cond r.1) now
      ∙ observe_running next stores metric op value d (clock s.reads) after
          (lookup-insert_self (rule_id, pid) (clock s.reads) c.sustained) ts
      ∙ ap (λ k. leb d (clock k - clock s.reads)) reads

  not_yet : (d : ℕ) (t : EvalState) → 0 < d → (or_then (leb d 0, t) (λ u. (false, u))).0 ≡ false
  not_yet d t positive = ground arith

  -- The parts of a rule share the timer of the rule: in an `any` of two thresholds, when the first
  -- fails at every evaluation, the second, however long it passes, never holds if it is to be kept
  -- up for some time.
  pub eval_any-shared_timer :
      (store : MetricStore) (metric other : String) (op op' : CompareOp) (value value' : F64)
      (wanted : Option ℕ) (d : ℕ) (s : EvalState)
      → 0 < d
      → Tested store metric op value false
      → Tested store other op' value' true
      → (eval store
          (any (
            cons
              (threshold metric op value wanted)
              (cons (threshold other op' value' (some d)) nil)))
          s).0
        ≡ false
  unfolding eval_condition timed if_sustained push_match clear_sustained
  eval_any-shared_timer store metric other op op' value value' wanted d s positive missed met =
      let one = failed store metric op value wanted s missed in
      let c = clear_sustained rule_id pid s in
      let two =
        passed store other op' value' d c met
        ∙ check_first store d (push_match other met.current c) (timer-clear s) in
      let rest =
        eval_any f clock store host pid limits rule_id
          (cons (threshold other op' value' (some d)) nil) in
      ap (λ r. (or_then r rest).0) one
      ∙ ap (λ r. (or_then r (eval_any f clock store host pid limits rule_id nil)).0) two
      ∙ not_yet d
          (record (push_match other met.current c) {
            sustained = insert (rule_id, pid) (clock s.reads) c.sustained;
            reads = suc s.reads;
          })
          positive
