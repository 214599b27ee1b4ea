-- ===== src/Script/Tests.antt =====
-- Concrete runs of the rule language (crates/aether-script/src).
use aether_terminal.Prelude.{
  ℕ, ◌≡◌, refl, ap, ◌⊎◌, ◌↔◌, String, true, Option, none, some, [], ◌∷◌, ◌==◌, if◌then◌else◌,
  string_eq, arith,
}
use aether_terminal.Prelude.Map.{lookup}
use aether_terminal.Script.Token.{Token, token_eq}
use aether_terminal.Script.Ast.{Action, eval_condition, duration_secs}
use aether_terminal.Script.Reload
use aether_terminal.Script.Reload.{
  ScriptError, Loaded, HotReloader, Scanned, scanned, recompile, read_all, parse_rules,
}
use aether_terminal.Script.Reload.Laws.{Reloaded, recompile-cases}
use aether_terminal.Script.Reload.Runs.{recompile-interpret}
use aether_terminal.Script.Types
use aether_terminal.Script.Types.{
  check_rule, check_condition, check_comparison, resolve_expr, check_actions, check_action,
  compare_types, with_builtins, check, Checked,
}
use aether_terminal.Script.Types.Laws.{AllTyped, check-ok_iff}
use aether_terminal.Script.Parser.Monad.{
  Message, ◌>>=◌, attempt, peek, advance, budget, fail, error, skip,
}
use aether_terminal.Script.Parser.{
  parse, parse_rule, start, Parsed, parse_rule_file, file_loop, expect, expect_ident, expect_string,
  parse_condition, parse_or, or_loop, parse_and, and_loop, parse_not, not_loop, parse_comparison,
  parse_expr, parse_cmp_op, parse_action, action_loop, recover_to_rule, recovery_loop,
}
use aether_terminal.Script.Parser.Total.{IsAnswer, parse-IsAnswer}
use aether_terminal.Script.Codegen.{
  Function, ok, err, rejected, generate_rule, emit_condition, emit_return, first_action,
  resolve_field, load, f32, fcmp, f32const, FloatCc, emit_comparison, emit_literal_cmp, float_cc,
}
use aether_terminal.Script.Codegen.Machine.{call}
use aether_terminal.Script.Codegen.Correct.{holds, expected, generate_rule-call}
use aether_terminal.Script.Codegen.Fragment.{IsOk}
use aether_terminal.Script.Codegen.Layout.{
  ReadsField, struct_name, layout, state_fields, resolve_field-ReadsField,
}
use aether_terminal.Script.Runtime.{
  DurationTracker, new_tracker, CompiledRuleSet, compile, evaluate_with_tracker, compile_rules,
  compile_rule, check_duration,
}
use aether_terminal.Script.Runtime.Refine.{interpret, evaluate_with_tracker-interpret}
use aether_terminal.Script.Runtime.Streak.{Observation, observe, remember, MetFor, observe-true_iff}
use aether_terminal.Script.Samples.{
  test_machine, ninety, ninety_five, hot_tokens, broken_tokens, hot_rule,
}

parse-hot : parse hot_tokens ≡ Parsed.ok (record { rules = hot_rule ∷ [] })
unfolding parse parse_rule_file file_loop parse_rule expect expect_ident expect_string
    parse_condition parse_or or_loop parse_and and_loop parse_not not_loop parse_comparison
    parse_expr parse_cmp_op parse_action action_loop ◌>>=◌ attempt peek advance budget token_eq
parse-hot = refl

-- What is left of the input after `rule bad {` is not read by the error recovery as a rule.
parse-broken :
    parse broken_tokens
    ≡ Parsed.err (
        record {
          message = Message.expected_token Token.when (some Token.process);
          span = record { start = 0; end = 0 };
        }
        ∷ [])
unfolding parse parse_rule_file file_loop parse_rule expect expect_ident expect_string ◌>>=◌ attempt
    peek advance budget fail error recover_to_rule recovery_loop skip token_eq
parse-broken = refl

parse-IsAnswer_example : IsAnswer (parse broken_tokens)
parse-IsAnswer_example = parse-IsAnswer broken_tokens

check-ok_iff_example :
    check (record { rules = hot_rule ∷ [] }) ≡ Checked.ok ↔ AllTyped with_builtins (hot_rule ∷ [])
check-ok_iff_example = check-ok_iff (record { rules = hot_rule ∷ [] })

abbrev pub hot_function : Function
hot_function = emit_return (fcmp FloatCc.greater_than (load f32 4) (f32const ninety)) Action.kill

abbrev pub accepts : Function → Option String
accepts func = none

generate-hot : generate_rule accepts hot_rule ≡ ok hot_function
unfolding generate_rule emit_condition emit_comparison emit_literal_cmp resolve_field eval_condition
    float_cc
generate-hot = refl

-- A process with pid 7 and a load of 95 %.
abbrev pub busy : ℕ → ℕ
busy offset = if offset == 0 then 7 else if offset == 4 then ninety_five else 0

generate_rule-call_example :
    (a : Action) × (first_action hot_rule.actions ≡ ok a)
    × (call test_machine hot_function busy
        ≡ expected test_machine busy a (holds test_machine busy (eval_condition hot_rule)))
generate_rule-call_example = generate_rule-call test_machine accepts hot_rule busy generate-hot

hp_resolves : IsOk (resolve_field "process" "hp")
unfolding resolve_field
hp_resolves = tt

resolve_field-ReadsField_example :
    ReadsField "hp"
      (resolve_field "process" "hp")
      (lookup (struct_name "hp") (layout 0 state_fields))
resolve_field-ReadsField_example = resolve_field-ReadsField "process" "hp" hp_resolves

abbrev pub hot_set : CompiledRuleSet
hot_set = record {
  rules = (record { name = "hot"; func = hot_function }, some 5_000_000_000) ∷ [];
  tracker = new_tracker;
}

pub compile-hot : compile accepts accepts none (hot_rule ∷ []) ≡ ok hot_set
unfolding compile compile_rules compile_rule duration_secs
compile-hot = rw generate-hot refl

-- On a host that Cranelift refuses, nothing compiles.
compile-refused : compile accepts accepts (some "unsupported") [] ≡ err (rejected "unsupported")
unfolding compile
compile-refused = refl

-- A clock that stands at 9 s.
abbrev pub nine_seconds : ℕ → ℕ × ℕ
nine_seconds i = (9_000_000_000, 9_000_000_000)

-- The rule was met first at 3 s.
abbrev pub since_three : DurationTracker
since_three = record { timers = (("hot", 7), 3_000_000_000) ∷ [] }

-- After six seconds the rule fires.
interpret-hot :
    (interpret test_machine busy nine_seconds 0 (hot_rule ∷ []) since_three []).1
    ≡ record { rule_name = "hot"; action = 2; target_pid = 7; severity = 0 } ∷ []
unfolding interpret holds resolve_field eval_condition duration_secs check_duration lookup
interpret-hot = refl

evaluate_with_tracker-interpret_example :
    evaluate_with_tracker test_machine busy nine_seconds hot_set since_three
    ≡ interpret test_machine busy nine_seconds 0 (hot_rule ∷ []) since_three []
evaluate_with_tracker-interpret_example =
    evaluate_with_tracker-interpret test_machine busy accepts accepts none nine_seconds
      (hot_rule ∷ []) since_three compile-hot

abbrev seen : ℕ → Observation
seen time = record { rule_name = "hot"; pid = 7; met = true; required = 5; time = time }

observe-true_iff_example :
    ((observe (seen 9) (remember (seen 3 ∷ []))).1 ≡ true)
    ↔ MetFor ("hot", 7) 5 9 (seen 9 ∷ seen 3 ∷ [])
observe-true_iff_example = observe-true_iff (seen 9) (seen 3 ∷ []) (omega arith, tt)

-- One file, with the text of the rule.
abbrev read_hot : String → Option String
read_hot path = some "rule hot { when process.cpu > 90% for 5s then kill }"

abbrev scan_hot : String → Scanned
scan_hot source = scanned hot_tokens

abbrev no_rules : HotReloader
no_rules = record {
  rules = record { rules = []; tracker = new_tracker };
  watch_paths = "rules.aether" ∷ [];
}

check-hot : check (record { rules = hot_rule ∷ [] }) ≡ Checked.ok
unfolding check check_rule check_condition check_comparison resolve_expr Types.resolve_field
    Types.literal_type check_actions check_action compare_types lookup
check-hot = refl

reload-hot :
    recompile read_hot scan_hot accepts accepts none no_rules
    ≡ (record no_rules { rules = hot_set }, Reload.ok tt)
unfolding recompile read_all parse_rules
reload-hot = rw (parse-hot, check-hot, compile-hot) refl

recompile-cases_example :
    ((e : ScriptError) × (recompile read_hot scan_hot accepts accepts none no_rules
        ≡ (no_rules, Reload.err e)))
    ⊎ ((set : CompiledRuleSet) × Reloaded read_hot scan_hot accepts accepts none
          ("rules.aether" ∷ [])
          set
        × (recompile read_hot scan_hot accepts accepts none no_rules
            ≡ (record no_rules { rules = set }, Reload.ok tt)))
recompile-cases_example = recompile-cases read_hot scan_hot accepts accepts none no_rules

recompile-interpret_example :
    (r : Reloaded read_hot scan_hot accepts accepts none
      ("rules.aether" ∷ [])
      (recompile read_hot scan_hot accepts accepts none no_rules).0.rules)
    × (evaluate_with_tracker test_machine busy nine_seconds
          (recompile read_hot scan_hot accepts accepts none no_rules).0.rules
          since_three
        ≡ interpret test_machine busy nine_seconds 0 r.file.rules since_three [])
recompile-interpret_example =
    recompile-interpret read_hot scan_hot accepts accepts none test_machine busy nine_seconds
      since_three no_rules (ap (λ (p : HotReloader × Loaded (Unit {0})). p.1) reload-hot)
