-- ===== src/Script/Runtime.antt =====
-- The evaluation of compiled rules, crates/aether-script/src/runtime.rs. An `Instant` is a number
-- of nanoseconds, and the readings of the clock are arguments. The native code of a rule is its
-- function under a machine; `jit` says whether Cranelift refuses to make it, and `host` whether it
-- refuses to make a compiler for the host.
pub mod Streak
pub mod Refine
use aether_terminal.Prelude.{
  ℕ, suc, ◌+◌, ◌-◌, ◌*◌, String, Bool, true, false, not, Option, none, some, List, [], ◌∷◌, ◌++◌,
  leb, ◌==◌, if◌then◌else◌, pair_eq,
}
use aether_terminal.Prelude.Map.{Map, lookup, insert, remove}
use aether_terminal.Script.Ast.{Rule, duration_secs}
use aether_terminal.Script.Codegen.{Function, Result, ok, err, rejected, ◌>>=◌, generate_rule, i32}
use aether_terminal.Script.Codegen.Machine.{Machine, RuleResult, call}

pub record RuleAction : Type 0 where
  pub rule_name : String
  pub action : ℕ
  pub target_pid : ℕ
  pub severity : ℕ

abbrev pub Key : Type 0
Key = String × ℕ

pub record DurationTracker : Type 0 where
  pub timers : Map Key ℕ

abbrev pub new_tracker : DurationTracker
new_tracker = record { timers = [] }

-- `entry(key).or_insert_with(Instant::now)`: the timer's start, and the timers with it.
abbrev pub started : Key → ℕ → Map Key ℕ → Option ℕ → ℕ × Map Key ℕ
started key now timers (some start) = (start, timers)
started key now timers none = (now, insert key now timers)

-- `inserted` is the clock when the timer starts, `read` when its age is taken; an age below 0 is 0.
unfoldable pub check_duration :
    String → ℕ → Bool → ℕ → ℕ → ℕ → DurationTracker → DurationTracker × Bool
check_duration rule_name pid condition_met required inserted read tracker =
    if not condition_met
    then (record { timers = remove (rule_name, pid) tracker.timers }, false)
    else (let (start, timers) =
          started (rule_name, pid) inserted tracker.timers
            (lookup (rule_name, pid) tracker.timers) in
        (record { timers = timers }, leb required (read - start)))

abbrev pub nanos_per_sec : ℕ
nanos_per_sec = 1_000_000_000

abbrev pub from_secs : Option ℕ → Option ℕ
from_secs none = none
from_secs (some secs) = some (secs * nanos_per_sec)

pub record CompiledRule : Type 0 where
  pub name : String
  pub func : Function

pub record CompiledRuleSet : Type 0 where
  pub rules : List (CompiledRule × Option ℕ)
  pub tracker : DurationTracker

module _ (verify jit : Function → Option String) where
  abbrev pub compiled : String → Function → Option String → Result CompiledRule
  compiled name func none = ok (record { name = name; func = func })
  compiled name func (some reason) = err (rejected reason)

  unfoldable pub compile_rule : Rule → Result CompiledRule
  compile_rule r = do func ← generate_rule verify r; compiled r.name func (jit func)

  -- `collect` stops at the first error.
  unfoldable pub compile_rules : List Rule → Result (List (CompiledRule × Option ℕ))
  compile_rules [] = ok []
  compile_rules (r ∷ rules) = do
    c ← compile_rule r
    rest ← compile_rules rules
    ok ((c, from_secs (duration_secs r)) ∷ rest)

  -- `JitCompiler::new`, with the reason why Cranelift refuses the host, if it does.
  abbrev pub new_jit : Option String → Result (Unit {0})
  new_jit none = ok tt
  new_jit (some reason) = err (rejected reason)

  unfoldable pub compile : Option String → List Rule → Result CompiledRuleSet
  compile host rules = do
    jit_ready ← new_jit host
    compiled ← compile_rules rules
    ok (record { rules = compiled; tracker = new_tracker })

abbrev pub should_fire :
    Option ℕ → String → ℕ → Bool → ℕ → ℕ → DurationTracker → DurationTracker × Bool
should_fire (some required) name pid condition_met inserted read tracker =
    check_duration name pid condition_met required inserted read tracker
should_fire none name pid condition_met inserted read tracker = (tracker, condition_met)

abbrev pub fired : Bool → String → RuleResult → List RuleAction → List RuleAction
fired true name result actions =
    actions
    ++ record {
      rule_name = name;
      action = result.action_type;
      target_pid = result.target_pid;
      severity = result.severity;
    }
      ∷ []
fired false name result actions = actions

module _ (m : Machine) where
  abbrev pub pid_of : m.State → ℕ
  pid_of st = m.word (m.read st i32 0)

  -- The loop of `evaluate_with_tracker`; the rule at index `i` reads the clock twice.
  unfoldable pub evaluate_loop :
      m.State
      → (ℕ → ℕ × ℕ)
      → ℕ
      → List (CompiledRule × Option ℕ)
      → DurationTracker
      → List RuleAction
      → DurationTracker × List RuleAction
  evaluate_loop st clock i [] tracker actions = (tracker, actions)
  evaluate_loop st clock i ((r, duration) ∷ rules) tracker actions =
      let result = call m r.func st in
      let condition_met = not (result.matched == 0) in
      let (tracker', fire) =
        should_fire duration r.name (pid_of st) condition_met (clock i).0 (clock i).1 tracker in
      evaluate_loop st clock (suc i) rules tracker' (fired fire r.name result actions)

  unfoldable pub evaluate_with_tracker :
      m.State → (ℕ → ℕ × ℕ) → CompiledRuleSet → DurationTracker → DurationTracker × List RuleAction
  evaluate_with_tracker st clock set tracker = evaluate_loop st clock 0 set.rules tracker []

  -- `evaluate` runs the same loop on the set's own tracker.
  unfoldable pub evaluate :
      m.State → (ℕ → ℕ × ℕ) → CompiledRuleSet → CompiledRuleSet × List RuleAction
  evaluate st clock set =
      let (tracker', actions) = evaluate_loop st clock 0 set.rules set.tracker [] in
      (record set { tracker = tracker' }, actions)
