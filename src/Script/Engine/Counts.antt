-- ===== src/Script/Engine/Counts.antt =====
-- The statistics of crates/aether-script/src/engine.rs.
use aether_terminal.Prelude.{
  ℕ, suc, ◌+◌, ◌≡◌, String, Bool, true, false, List, [], ◌∷◌, ◌++◌, length, arith,
}
use aether_terminal.Prelude.Map.{Map}
use aether_terminal.Script.Codegen.Machine.{Machine}
use aether_terminal.Script.Runtime.{RuleAction, DurationTracker, CompiledRuleSet}
use aether_terminal.Script.Engine.{
  count_match, Sender, counted, send_all, snapshot_done, ProcessNode, WorldState, evaluate_snapshot,
}

abbrev pub sum_counts : Map String ℕ → ℕ
sum_counts [] = 0
sum_counts ((name, n) ∷ counts) = n + sum_counts counts

-- The matches add up to the triggered actions.
abbrev pub IsCounted : Sender → Type 0
IsCounted s = sum_counts s.stats.rule_match_counts ≡ s.stats.actions_triggered

sum-count_match :
    (name : String) (counts : Map String ℕ)
    → sum_counts (count_match name counts) ≡ suc (sum_counts counts)
unfolding count_match
sum-count_match name [] = omega arith
sum-count_match name ((key, n) ∷ counts) = ground (arith, sum-count_match name counts)

send_all-IsCounted :
    (takes : List RuleAction → Bool) (actions : List RuleAction) (s : Sender)
    → IsCounted s
    → IsCounted (send_all takes actions s).0
unfolding send_all
send_all-IsCounted takes [] s h = h
send_all-IsCounted takes (a ∷ actions) s h = go (takes s.sent) more (
    send_all-IsCounted takes actions (record { stats = counted a s.stats; sent = s.sent ++ a ∷ [] })
      more)
  where
    more : IsCounted (record s { stats = counted a s.stats })
    more = omega (arith, h, sum-count_match a.rule_name s.stats.rule_match_counts)

    go :
        (b : Bool)
        → IsCounted (record s { stats = counted a s.stats })
        → IsCounted
            (send_all takes actions
              (record { stats = counted a s.stats; sent = s.sent ++ a ∷ [] })).0
        → IsCounted
            (elim b as (λ b. Sender × Bool) [
              | true ↦
                  send_all takes actions
                    (record { stats = counted a s.stats; sent = s.sent ++ a ∷ [] })
              | false ↦ (record s { stats = counted a s.stats }, false)
            ]).0
    go true k l = l
    go false k l = k

done-IsCounted :
    (processes : ℕ) (r : Sender × Bool) → IsCounted r.0 → IsCounted (snapshot_done processes r)
done-IsCounted processes (s, true) h = h
done-IsCounted processes (s, false) h = h

-- A snapshot keeps the matches per rule adding up to the triggered actions, also when the channel
-- is closed on the way.
pub evaluate_snapshot-IsCounted :
    {F : Type 0} (zero_percent : F) (m : Machine) (place : WorldState F → m.State)
    (takes : List RuleAction → Bool) (clocks : ℕ → ℕ → ℕ × ℕ) (rules : CompiledRuleSet)
    (processes : List (ProcessNode F)) (tracker : DurationTracker) (s : Sender)
    → IsCounted s
    → IsCounted (evaluate_snapshot zero_percent m place takes clocks rules processes (tracker, s)).1
unfolding evaluate_snapshot
evaluate_snapshot-IsCounted zero_percent m place takes clocks rules processes tracker s h =
    done-IsCounted (length processes) (send_all takes _ s) (send_all-IsCounted takes _ s h)
