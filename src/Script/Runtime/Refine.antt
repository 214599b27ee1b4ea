-- ===== src/Script/Runtime/Refine.antt =====
-- The evaluation of compiled rules (crates/aether-script/src/runtime.rs) refines an interpreter of
-- the syntax trees.
use aether_terminal.Prelude.{
  ℕ, suc, ◌≡◌, refl, ap, sym, ◌∙◌, String, Bool, true, false, not, Option, none, some, List, [],
  ◌∷◌, ◌++◌, append-nil, ◌==◌, if◌then◌else◌,
}
use aether_terminal.Script.Ast.{Action, Rule, duration_secs, eval_condition}
use aether_terminal.Script.Codegen.{Function, Result, ok, err, ◌>>=◌, generate_rule, first_action}
use aether_terminal.Script.Codegen.Machine.{Machine, RuleResult, call}
use aether_terminal.Script.Codegen.Correct.{
  holds, expected, action_code, severity_code, generate_rule-call,
}
use aether_terminal.Script.Runtime.{
  RuleAction, DurationTracker, new_tracker, check_duration, from_secs, CompiledRule,
  CompiledRuleSet, compiled, compile_rule, compile_rules, new_jit, compile, should_fire, fired,
  pid_of, evaluate_loop, evaluate_with_tracker,
}

abbrev pub triggered : (m : Machine) → m.State → String → Result Action → List RuleAction
triggered m st name (err e) = []
triggered m st name (ok a) =
    record {
      rule_name = name;
      action = action_code m a;
      target_pid = pid_of m st;
      severity = severity_code m a;
    }
    ∷ []

-- A rule whose condition holds, for long enough if it has a duration, triggers its first action.
unfoldable pub interpret :
    (m : Machine)
    → m.State
    → (ℕ → ℕ × ℕ)
    → ℕ
    → List Rule
    → DurationTracker
    → List RuleAction
    → DurationTracker × List RuleAction
interpret m st clock i [] tracker actions = (tracker, actions)
interpret m st clock i (r ∷ rules) tracker actions =
    let (tracker', fire) =
      should_fire (from_secs (duration_secs r)) r.name (pid_of m st) (holds m st (eval_condition r))
        (clock i).0 (clock i).1 tracker in
    interpret m st clock (suc i) rules tracker'
      (actions ++ (if fire then triggered m st r.name (first_action r.actions) else []))

>>=-eq-ok {ℓ κ} :
    {A : Type ℓ} {B : Type κ} (r : Result A) (f : A → Result B) {b : B}
    → (r >>= f) ≡ ok b
    → (a : A) × (r ≡ ok a) × (f a ≡ ok b)
>>=-eq-ok (ok a) f h = (a, refl, h)
>>=-eq-ok (err e) f h = cc

-- Nothing fires whose condition does not hold.
should_fire-false :
    (duration : Option ℕ) (name : String) (pid inserted read : ℕ) (tracker : DurationTracker)
    → (should_fire duration name pid false inserted read tracker).1 ≡ false
unfolding check_duration
should_fire-false none name pid inserted read tracker = refl
should_fire-false (some d) name pid inserted read tracker = refl

module _ (m : Machine) (st : m.State) where
  expected-met : (a : Action) (b : Bool) → not ((expected m st a b).matched == 0) ≡ b
  expected-met a true = refl
  expected-met a false = refl

  -- The step of the loop for one compiled rule.
  fired-triggered :
      (fire met : Bool) (name : String) (a : Action) (actions : List RuleAction)
      → (met ≡ false → fire ≡ false)
      → fired fire name (expected m st a met) actions
        ≡ actions ++ (if fire then triggered m st name (ok a) else [])
  fired-triggered true true name a actions h = refl
  fired-triggered true false name a actions h = cc (h refl)
  fired-triggered false met name a actions h = sym (append-nil actions)

  compile_rule-call :
      (verify jit : Function → Option String) (r : Rule) {c : CompiledRule}
      → compile_rule verify jit r ≡ ok c
      → (a : Action) × (first_action r.actions ≡ ok a)
        × (c.name ≡ r.name)
        × (call m c.func st ≡ expected m st a (holds m st (eval_condition r)))
  unfolding compile_rule
  compile_rule-call verify jit r {c} h =
      let (func, g, k) = >>=-eq-ok (generate_rule verify r) _ h in
      let (a, first, called) = generate_rule-call m verify r st g in
      let e = kept func (jit func) k in
      (
        a,
        first,
        ap (λ (x : CompiledRule). x.name) e,
        ap (λ (x : CompiledRule). call m x.func st) e ∙ called,
      )
    where
      kept :
          (func : Function) (o : Option String)
          → compiled verify jit r.name func o ≡ ok c
          → c ≡ record { name = r.name; func = func }
      kept func none e = cc
      kept func (some reason) e = cc

  -- One round of each loop: the tracker and the actions after a rule.
  abbrev Timing : Type 0
  Timing = ℕ × ℕ

  abbrev round :
      Option ℕ
      → Timing
      → DurationTracker
      → List RuleAction
      → String
      → RuleResult
      → DurationTracker × List RuleAction
  round d t tracker actions name result =
      let (tracker', fire) =
        should_fire d name (pid_of m st) (not (result.matched == 0)) t.0 t.1 tracker in
      (tracker', fired fire name result actions)

  abbrev spec_round :
      Option ℕ
      → Timing
      → DurationTracker
      → List RuleAction
      → String
      → Result Action
      → Bool
      → DurationTracker × List RuleAction
  spec_round d t tracker actions name a met =
      let (tracker', fire) = should_fire d name (pid_of m st) met t.0 t.1 tracker in
      (tracker', actions ++ (if fire then triggered m st name a else []))

  round-spec :
      (d : Option ℕ) (t : Timing) (tracker : DurationTracker) (actions : List RuleAction)
      (name : String) (a : Action) (met : Bool)
      → round d t tracker actions name (expected m st a met)
        ≡ spec_round d t tracker actions name (ok a) met
  round-spec d t tracker actions name a true = λ i. (
    (should_fire d name (pid_of m st) true t.0 t.1 tracker).0,
    fired-triggered (should_fire d name (pid_of m st) true t.0 t.1 tracker).1 true name a actions
        (λ h. cc) i,
  )
  round-spec d t tracker actions name a false = λ i. (
    (should_fire d name (pid_of m st) false t.0 t.1 tracker).0,
    fired-triggered (should_fire d name (pid_of m st) false t.0 t.1 tracker).1 false name a actions
        (λ h. should_fire-false d name (pid_of m st) t.0 t.1 tracker) i,
  )

  compiled_round :
      (d : Option ℕ) (t : Timing) (tracker : DurationTracker) (actions : List RuleAction)
      (c : CompiledRule) (name : String) (a : Action) (first : Result Action) (met : Bool)
      → c.name ≡ name
      → call m c.func st ≡ expected m st a met
      → first ≡ ok a
      → round d t tracker actions c.name (call m c.func st)
        ≡ spec_round d t tracker actions name first met
  compiled_round d t tracker actions c name a first met n k f =
      rw (f, ← n, k) (round-spec d t tracker actions c.name a met)

  loop-interpret :
      (verify jit : Function → Option String) (clock : ℕ → ℕ × ℕ) (i : ℕ) (rules : List Rule)
      (cs : List (CompiledRule × Option ℕ)) (tracker : DurationTracker) (actions : List RuleAction)
      → compile_rules verify jit rules ≡ ok cs
      → evaluate_loop m st clock i cs tracker actions ≡ interpret m st clock i rules tracker actions
  unfolding compile_rules evaluate_loop interpret
  loop-interpret verify jit clock i [] cs tracker actions h = rw (nil h)
    where
      nil : ok [] ≡ ok cs → cs ≡ []
      nil h = cc
  loop-interpret verify jit clock i (r ∷ rules) cs tracker actions h =
      let (c, hc, h') = >>=-eq-ok (compile_rule verify jit r) _ h in
      let (rest, hr, h'') = >>=-eq-ok (compile_rules verify jit rules) _ h' in
      let (a, first, named, called) = compile_rule-call verify jit r hc in
      let d = from_secs (duration_secs r) in
      let e =
        compiled_round d (clock i) tracker actions c r.name a (first_action r.actions) _ named
          called first in
      let spec =
        spec_round d (clock i) tracker actions r.name (first_action r.actions)
          (holds m st (eval_condition r)) in
      rw (cons c rest h'') (
        ap
          (λ (p : DurationTracker × List RuleAction). evaluate_loop m st clock (suc i) rest p.0 p.1)
          e
        ∙ loop-interpret verify jit clock (suc i) rules rest spec.0 spec.1 hr)
    where
      cons :
          (c : CompiledRule) (rest : List (CompiledRule × Option ℕ))
          → ok ((c, from_secs (duration_secs r)) ∷ rest) ≡ ok cs
          → cs ≡ (c, from_secs (duration_secs r)) ∷ rest
      cons c rest h = cc

  -- On a rule set that compiles, the evaluation with a caller's tracker triggers what the
  -- interpreter of the syntax trees triggers, and leaves the tracker that the interpreter leaves.
  pub evaluate_with_tracker-interpret :
      (verify jit : Function → Option String) (host : Option String) (clock : ℕ → ℕ × ℕ)
      (rules : List Rule) (tracker : DurationTracker) {set : CompiledRuleSet}
      → compile verify jit host rules ≡ ok set
      → evaluate_with_tracker m st clock set tracker ≡ interpret m st clock 0 rules tracker []
  unfolding compile evaluate_with_tracker
  evaluate_with_tracker-interpret verify jit host clock rules tracker {set} h =
      let (ready, created, rest) = >>=-eq-ok (new_jit verify jit host) _ h in
      let (cs, hc, k) = >>=-eq-ok (compile_rules verify jit rules) _ rest in
      rw (same_rules cs k) (loop-interpret verify jit clock 0 rules cs tracker [] hc)
    where
      same_rules :
          (cs : List (CompiledRule × Option ℕ))
          → ok (record { rules = cs; tracker = new_tracker }) ≡ ok set
          → set.rules ≡ cs
      same_rules cs e = cc
