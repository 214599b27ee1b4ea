-- ===== src/Core/Graph/Trace.antt =====
-- `WorldGraph` as a map from pids to processes, over every sequence of calls.
use aether_terminal.Prelude.{
  ℕ, ◌≡◌, refl, ap, ◌∙◌, List, [], ◌∷◌, Option, none, some, All, ◌==◌, if◌then◌else◌,
}
use aether_terminal.Core.Models.{ProcessNode, NetworkEdge, SystemSnapshot}
use aether_terminal.Core.Petgraph.{StableGraph}
use aether_terminal.Core.Graph.{
  WorldGraph, and_then, new, add_process, remove_process, update_process, add_connection,
  find_by_pid, apply_snapshot,
}
use aether_terminal.Core.Graph.Indexed.{IsIndexed, process_at, Sees, remove_process-Keeps}
use aether_terminal.Core.Graph.Calls.{
  apply_at, new-Keeps, left_by, add_process-Sees, update_process-Sees, add_connection-Sees,
  find_by_pid_lem,
}
use aether_terminal.Core.Graph.Snapshot.{last_with, apply_snapshot-Sees}

pub data Call : Type 0 where
  add : ProcessNode → Call
  remove : ℕ → Call
  update : ℕ → (ProcessNode → ProcessNode) → Call
  connect : ℕ → ℕ → NetworkEdge → Call
  snapshot : SystemSnapshot → Call

-- A closure given to `update_process` leaves the pid alone.
unfoldable pub IsSafe : Call → Type 0
IsSafe (add n) = Unit
IsSafe (remove pid) = Unit
IsSafe (update pid f) = (n : ProcessNode) → (f n).pid ≡ n.pid
IsSafe (connect a b x) = Unit
IsSafe (snapshot s) = Unit

-- A call on the abstract map, which has at most one process for each pid.
unfoldable pub abstract_call : Call → (ℕ → Option ProcessNode) → ℕ → Option ProcessNode
abstract_call (add n) view pid = if n.pid == pid then some n else view pid
abstract_call (remove gone) view pid = if gone == pid then none else view pid
abstract_call (update target f) view pid = apply_at target f view pid
abstract_call (connect a b x) view pid = view pid
abstract_call (snapshot s) view pid = last_with pid s.processes

unfoldable pub abstract_calls : List Call → (ℕ → Option ProcessNode) → ℕ → Option ProcessNode
unfolding abstract_call
abstract_calls [] view = view
abstract_calls (c ∷ calls) view = abstract_calls calls (abstract_call c view)

module _ {G : Type 0} (p : StableGraph ProcessNode NetworkEdge G) where
  unfoldable pub call : Call → WorldGraph G → Option (WorldGraph G)
  call (add n) w = left_by p (add_process p n w)
  call (remove pid) w = some ((remove_process p pid w).0)
  call (update pid f) w = update_process p pid f w
  call (connect a b x) w = left_by p (add_connection p a b x w)
  call (snapshot s) w = apply_snapshot p s w

  unfoldable pub run : List Call → WorldGraph G → Option (WorldGraph G)
  unfolding call
  run [] w = some w
  run (c ∷ calls) w = and_then (call c w) (run calls)

  call-Sees :
      (c : Call) (w : WorldGraph G)
      → IsSafe c
      → IsIndexed p w
      → Sees p (call c w) (abstract_call c (process_at p w))
  unfolding call abstract_call IsSafe
  call-Sees (add n) w safe h = add_process-Sees p n w h
  call-Sees (remove pid) w safe h = record {
    world = (remove_process p pid w).0;
    returned = refl;
    keeps = remove_process-Keeps p pid w h;
  }
  call-Sees (update pid f) w safe h = update_process-Sees p pid f w h safe
  call-Sees (connect a b x) w safe h = add_connection-Sees p a b x w h
  call-Sees (snapshot s) w safe h = apply_snapshot-Sees p s w h

  run-Sees :
      (calls : List Call) (w : WorldGraph G)
      → All IsSafe calls
      → IsIndexed p w
      → Sees p (run calls w) (abstract_calls calls (process_at p w))
  unfolding run abstract_calls
  run-Sees [] w safe h = record {
    world = w;
    returned = refl;
    keeps = record { wf = h; viewed = λ pid. refl };
  }
  run-Sees (c ∷ calls) w (safe, safes) h =
      let one = call-Sees c w safe h in
      let rest = run-Sees calls one.world safes one.keeps.wf in
      record {
        world = rest.world;
        returned = rw one.returned rest.returned;
        keeps = record {
          wf = rest.keeps.wf;
          viewed = λ pid.
              rest.keeps.viewed pid
              ∙ ap (λ view. abstract_calls calls view pid) (λ i q. one.keeps.viewed q i);
        };
      }

  -- A sequence of calls on a new graph never panics, and `find_by_pid` then answers as the abstract
  -- map after the same calls, in which adding replaces the process of a pid, removing and updating
  -- concern one pid, connecting changes nothing, and a snapshot leaves exactly the last process
  -- that it has for each pid. A closure given to `update_process` must not change the pid.
  pub run-find_by_pid :
      (calls : List Call)
      → All IsSafe calls
      → (w : WorldGraph G) × (run calls (new p) ≡ some w)
        × ((pid : ℕ) → find_by_pid p pid w ≡ some (abstract_calls calls (λ q. none) pid))
  run-find_by_pid calls safes =
      let start = new-Keeps p in
      let s = run-Sees calls (new p) safes start.wf in
      (
        s.world,
        s.returned,
        λ pid.
            find_by_pid_lem p pid s.world s.keeps.wf
            ∙ ap some (
                s.keeps.viewed pid
                ∙ ap (λ view. abstract_calls calls view pid) (λ i q. start.viewed q i)),
      )
