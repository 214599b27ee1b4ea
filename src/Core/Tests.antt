-- ===== src/Core/Tests.antt =====
-- Concrete queues of crates/aether-core/src/arbiter.rs.
use aether_terminal.Prelude.{ℕ, ◌≡◌, ◌⊎◌, Bool, true, false, List, [], ◌∷◌, String}
use aether_terminal.Core.Arbiter.{
  AgentAction, PendingAction, ArbiterQueue, Resolved, Denied, approve, deny, drain_approved,
}
use aether_terminal.Core.Arbiter.Laws.{
  IsAbsent, Found, moved, approve_lem, deny_lem, approved_actions, denied, drain_approved_lem,
}
use aether_terminal.Core.Arbiter.Trace.{Call, opened, session, IsConserved, session-IsConserved}

abbrev asked : String → ℕ → PendingAction
asked id pid = record {
  id = id;
  action = AgentAction.kill_process pid;
  pid = pid;
  requested_at = 0;
  source = "claude";
}

abbrev two_asked : ArbiterQueue
two_asked = record {
  pending = asked "a" 1 ∷ asked "b" 2 ∷ [];
  history = (asked "c" 3, true) ∷ (asked "d" 4, false) ∷ [];
}

approve_lem_example :
    (IsAbsent "b" two_asked.pending × (approve "b" two_asked ≡ (two_asked, Resolved.not_found "b")))
    ⊎ ((f : Found "b" two_asked.pending) × (approve "b" two_asked
          ≡ (moved two_asked f true, Resolved.ok f.entry.action)))
approve_lem_example = approve_lem "b" two_asked

deny_lem_example :
    (IsAbsent "b" two_asked.pending × (deny "b" two_asked ≡ (two_asked, Denied.not_found "b")))
    ⊎ ((f : Found "b" two_asked.pending) × (deny "b" two_asked
          ≡ (moved two_asked f false, Denied.ok)))
deny_lem_example = deny_lem "b" two_asked

drain_approved_lem_example :
    drain_approved two_asked
    ≡ (record two_asked { history = denied two_asked.history }, approved_actions two_asked.history)
drain_approved_lem_example = drain_approved_lem two_asked

abbrev is_kill : AgentAction → Bool
is_kill (AgentAction.kill_process pid) = true
is_kill _ = false

abbrev some_calls : List Call
some_calls =
    Call.enqueue_call (AgentAction.kill_process 1) 1 "claude" "a" 0
    ∷ Call.approve_call "a"
    ∷ Call.drain_call
    ∷ Call.deny_call "a"
    ∷ []

session-IsConserved_example : IsConserved is_kill (session some_calls opened)
session-IsConserved_example = session-IsConserved is_kill some_calls
