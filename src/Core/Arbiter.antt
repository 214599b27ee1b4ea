-- ===== src/Core/Arbiter.antt =====
-- The approval queue of crates/aether-core/src/arbiter.rs. The UUID and the time of an action are
-- arguments of the operation that asks for them.
pub mod Laws
pub mod Trace
use aether_terminal.Prelude.{
  ℕ, zero, suc, String, Bool, true, false, Option, none, some, List, [], ◌∷◌, ◌++◌, str_eq, length,
  get_elem?, if◌then◌else◌,
}

pub data AgentAction : Type 0 where
  kill_process : ℕ → AgentAction
  restart_service : String → AgentAction
  inspect : ℕ → AgentAction
  custom_script : String → AgentAction

pub record PendingAction : Type 0 where
  pub id : String
  pub action : AgentAction
  pub pid : ℕ
  pub requested_at : ℕ
  pub source : String

pub record ArbiterQueue : Type 0 where
  pub pending : List PendingAction
  pub history : List (PendingAction × Bool)

abbrev pub new : ArbiterQueue
new = record { pending = []; history = [] }

unfoldable pub enqueue :
    AgentAction → ℕ → String → String → ℕ → ArbiterQueue → ArbiterQueue × String
enqueue action pid source uuid now q = (
  record q {
    pending =
        q.pending
        ++ record { id = uuid; action = action; pid = pid; requested_at = now; source = source }
          ∷ [];
  },
  uuid,
)

-- `iter().position(|a| a.id == id)`.
unfoldable pub position : String → List PendingAction → Option ℕ
position id [] = none
position id (a ∷ pending) =
    if str_eq a.id id
    then some 0
    else elim (position id pending) [ none ↦ none | some i ↦ some (suc i) ]

-- `Vec::remove` panics out of bounds: `none`.
unfoldable pub remove_at : ℕ → List PendingAction → Option (PendingAction × List PendingAction)
remove_at i [] = none
remove_at zero (a ∷ pending) = some (a, pending)
remove_at (suc i) (a ∷ pending) = elim (remove_at i pending) [
  | none ↦ none
  | some (entry, rest) ↦ some (entry, a ∷ rest)
]

pub data Resolved : Type 0 where
  ok : AgentAction → Resolved
  not_found : String → Resolved
  panicked : Resolved

abbrev pub resolve_at :
    String
    → Bool
    → ArbiterQueue
    → Option (PendingAction × List PendingAction)
    → ArbiterQueue × Resolved
resolve_at id approved q none = (q, Resolved.panicked)
resolve_at id approved q (some (entry, rest)) = (
  record { pending = rest; history = q.history ++ (entry, approved) ∷ [] },
  Resolved.ok entry.action,
)

abbrev pub resolve_position : String → Bool → ArbiterQueue → Option ℕ → ArbiterQueue × Resolved
resolve_position id approved q none = (q, Resolved.not_found id)
resolve_position id approved q (some idx) = resolve_at id approved q (remove_at idx q.pending)

unfoldable pub approve : String → ArbiterQueue → ArbiterQueue × Resolved
unfolding position remove_at
approve id q = resolve_position id true q (position id q.pending)

pub data Denied : Type 0 where
  ok panicked : Denied
  not_found : String → Denied

abbrev pub without_action : Resolved → Denied
without_action (Resolved.ok action) = ok
without_action (Resolved.not_found id) = not_found id
without_action Resolved.panicked = panicked

unfoldable pub deny : String → ArbiterQueue → ArbiterQueue × Denied
unfolding position remove_at
deny id q =
    let (q', r) = resolve_position id false q (position id q.pending) in (q', without_action r)

-- The loop of `drain_approved` over the old history.
unfoldable pub drain_loop :
    List (PendingAction × Bool)
    → List AgentAction
    → List (PendingAction × Bool)
    → List AgentAction × List (PendingAction × Bool)
drain_loop [] approved remaining = (approved, remaining)
drain_loop ((entry, was_approved) ∷ history) approved remaining =
    drain_loop history (if was_approved then approved ++ entry.action ∷ [] else approved)
      (if was_approved then remaining else remaining ++ (entry, false) ∷ [])

unfoldable pub drain_approved : ArbiterQueue → ArbiterQueue × List AgentAction
unfolding drain_loop
drain_approved q =
    let (approved, remaining) = drain_loop q.history [] [] in
    (record q { history = remaining }, approved)

unfoldable pub pending_count : ArbiterQueue → ℕ
pending_count q = length q.pending

unfoldable pub extract_pid : AgentAction → ℕ
extract_pid (kill_process pid) = pid
extract_pid (inspect pid) = pid
extract_pid (restart_service name) = 0
extract_pid (custom_script command) = 0

unfoldable pub submit : String → AgentAction → String → ℕ → ArbiterQueue → ArbiterQueue
unfolding enqueue extract_pid
submit source action uuid now q = (enqueue action (extract_pid action) source uuid now q).0
