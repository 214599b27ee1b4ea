-- ===== src/Script/Engine/Snapshot.antt =====
-- What a snapshot triggers (crates/aether-script/src/engine.rs).
use aether_terminal.Prelude.{
  ℕ, suc, ◌+◌, ◌≡◌, refl, ap, ◌∙◌, String, Bool, true, false, Option, List, [], ◌∷◌, ◌++◌,
  append-nil, append_assoc, length, sym,
}
use aether_terminal.Script.Ast.{Rule}
use aether_terminal.Script.Codegen.{Function, ok}
use aether_terminal.Script.Codegen.Machine.{Machine}
use aether_terminal.Script.Runtime.{RuleAction, DurationTracker, CompiledRuleSet, compile}
use aether_terminal.Script.Runtime.Refine.{interpret, evaluate_with_tracker-interpret}
use aether_terminal.Script.Engine.{
  Sender, counted, send_all, snapshot_done, ProcessNode, WorldState, world_state, collect_actions,
  evaluate_snapshot,
}

-- An open channel takes every action, in order, after those it has taken.
record TakesAll (actions : List RuleAction) (s : Sender) (r : Sender × Bool) : Type 0 where
  takes_all : r.0.sent ≡ s.sent ++ actions
  evaluated : r.0.stats.evaluations ≡ s.stats.evaluations
  open_ : r.1 ≡ true

send_all-TakesAll :
    (actions : List RuleAction) (s : Sender)
    → TakesAll actions s (send_all (λ sent. true) actions s)
unfolding send_all
send_all-TakesAll [] s = record {
  takes_all = sym (append-nil s.sent);
  evaluated = refl;
  open_ = refl;
}
send_all-TakesAll (a ∷ actions) s =
    let r =
      send_all-TakesAll actions (record { stats = counted a s.stats; sent = s.sent ++ a ∷ [] }) in
    record {
      takes_all = r.takes_all ∙ append_assoc s.sent (a ∷ []) actions;
      evaluated = r.evaluated;
      open_ = r.open_;
    }

record IsComplete (actions : List RuleAction) (processes : ℕ) (s s' : Sender) : Type 0 where
  all_sent : s'.sent ≡ s.sent ++ actions
  all_evaluated : s'.stats.evaluations ≡ s.stats.evaluations + processes

snapshot_done-IsComplete :
    (actions : List RuleAction) (processes : ℕ) (s : Sender) (r : Sender × Bool)
    → TakesAll actions s r
    → IsComplete actions processes s (snapshot_done processes r)
snapshot_done-IsComplete actions processes s (s', true) h = record {
  all_sent = h.takes_all;
  all_evaluated = ap (λ n. n + processes) h.evaluated;
}
snapshot_done-IsComplete actions processes s (s', false) h = cc (h.open_)

module _ {F : Type 0} (zero_percent : F) (m : Machine) (place : WorldState F → m.State) where
  -- The interpreter of the syntax trees on each process in turn.
  unfoldable pub interpret_all :
      (ℕ → ℕ → ℕ × ℕ)
      → ℕ
      → List Rule
      → List (ProcessNode F)
      → DurationTracker
      → List RuleAction
      → DurationTracker × List RuleAction
  interpret_all clocks i rules [] tracker all_actions = (tracker, all_actions)
  interpret_all clocks i rules (p ∷ processes) tracker all_actions =
      let (tracker', actions) =
        interpret m (place (world_state zero_percent p)) (clocks i) 0 rules tracker [] in
      interpret_all clocks (suc i) rules processes tracker' (all_actions ++ actions)

  collect_actions-interpret :
      (verify jit : Function → Option String) (host : Option String) (clocks : ℕ → ℕ → ℕ × ℕ)
      (i : ℕ) (rules : List Rule) (set : CompiledRuleSet) (processes : List (ProcessNode F))
      (tracker : DurationTracker) (all_actions : List RuleAction)
      → compile verify jit host rules ≡ ok set
      → collect_actions zero_percent m place clocks i set processes tracker all_actions
        ≡ interpret_all clocks i rules processes tracker all_actions
  unfolding collect_actions interpret_all
  collect_actions-interpret verify jit host clocks i rules set [] tracker all_actions h = refl
  collect_actions-interpret verify jit host clocks i rules set (p ∷ processes) tracker all_actions
        h =
      rw
        (evaluate_with_tracker-interpret m (place (world_state zero_percent p)) verify jit host
          (clocks i) rules tracker h)
        (collect_actions-interpret verify jit host clocks (suc i) rules set processes _ _ h)

  -- On a rule set that compiles and while the channel is open, a snapshot sends what the interpreter
  -- of the syntax trees triggers on each process in turn, leaves the interpreter's timers, and
  -- counts each process as an evaluation.
  pub evaluate_snapshot-interpret :
      (verify jit : Function → Option String) (host : Option String) (clocks : ℕ → ℕ → ℕ × ℕ)
      (rules : List Rule) (set : CompiledRuleSet) (processes : List (ProcessNode F))
      (tracker : DurationTracker) (s : Sender)
      → compile verify jit host rules ≡ ok set
      → (let after =
            evaluate_snapshot zero_percent m place
              (λ sent. true)
              clocks
              set
              processes
              (tracker, s) in
          let spec = interpret_all clocks 0 rules processes tracker [] in
          (after.0 ≡ spec.0)
          × (after.1.sent ≡ s.sent ++ spec.1)
          × (after.1.stats.evaluations ≡ s.stats.evaluations + length processes))
  unfolding evaluate_snapshot
  evaluate_snapshot-interpret verify jit host clocks rules set processes tracker s h =
      let spec = interpret_all clocks 0 rules processes tracker [] in
      let d = snapshot_done-IsComplete spec.1 (length processes) s _ (send_all-TakesAll spec.1 s) in
      rw (collect_actions-interpret verify jit host clocks 0 rules set processes tracker [] h)
        (refl, d.all_sent, d.all_evaluated)
