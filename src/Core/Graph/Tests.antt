-- ===== src/Core/Graph/Tests.antt =====
-- Runs of the world graph on a concrete graph library.
use aether_terminal.Prelude.{Option, none, Memᴰ, ℕ, ◌≡◌, refl, List, [], ◌∷◌, none, some, All}
use aether_terminal.Core.Models.{
  SystemSnapshot, ProcessNode, NetworkEdge, running, zombie, tcp, v4, established,
}
use aether_terminal.Core.Graph.{
  WorldGraph, new, and_then, add_process, add_connection, update_process, apply_snapshot,
  find_by_pid, edge_pairs_with_data, pids,
}
use aether_terminal.Prelude.Map.{lookup, insert, remove}
use aether_terminal.Core.Graph.Arena.{Arena, arena}
use aether_terminal.Core.Graph.Calls.{new-Keeps}
use aether_terminal.Core.Graph.Edges.{IsPlaced, apply_snapshot-edges}
use aether_terminal.Core.Graph.Trace.{
  Call, add, update, connect, snapshot, IsSafe, abstract_calls, run, run-find_by_pid,
}

abbrev process : ℕ → ProcessNode
process pid = record {
  pid = pid;
  ppid = 1;
  name = "worker";
  cpu_percent = 0;
  mem_bytes = 1024;
  state = running;
  hp = 0;
  xp = 0;
  position_3d = (0, 0, 0);
}

abbrev bury : ProcessNode → ProcessNode
bury n = record n { state = zombie }

abbrev link : ℕ → ℕ → NetworkEdge
link a b = record {
  source_pid = a;
  dest_pid = some b;
  dest = (v4 0x7f000001, 80);
  protocol = tcp;
  bytes_per_sec = 10;
  state = established;
}

abbrev calls : List Call
calls =
    add (process 7)
    ∷ add (process 8)
    ∷ connect 7 8 (link 7 8)
    ∷ update 7 bury
    ∷ snapshot (record {
      processes = process 8 ∷ process 9 ∷ [];
      edges = link 9 8 ∷ link 7 8 ∷ [];
      timestamp = 0;
    })
    ∷ Call.remove 5
    ∷ []

calls-IsSafe : All IsSafe calls
unfolding IsSafe
calls-IsSafe = (tt, (tt, (tt, ((λ n. refl), (tt, (tt, tt))))))

run-find_by_pid_example :
    (w : WorldGraph (Arena ProcessNode NetworkEdge)) × (run arena calls (new arena) ≡ some w)
    × ((pid : ℕ) → find_by_pid arena pid w ≡ some (abstract_calls calls (λ q. none) pid))
run-find_by_pid_example = run-find_by_pid arena calls calls-IsSafe

pids_after : and_then (run arena calls (new arena)) (λ w. some (pids w)) ≡ some (8 ∷ 9 ∷ [])
unfolding run add_process lookup new insert add_connection update_process apply_snapshot pids remove
    arena
pids_after = refl

-- The edge from 7, which the snapshot lacks, is not added.
edges_after :
    and_then (run arena calls (new arena)) (λ w. edge_pairs_with_data arena (0 ∷ 1 ∷ 2 ∷ []) w)
    ≡ some ((9, 8, link 9 8) ∷ [])
unfolding run add_process lookup new insert add_connection update_process apply_snapshot
    edge_pairs_with_data remove arena
edges_after = refl

abbrev snap : SystemSnapshot
snap = record {
  processes = process 8 ∷ process 9 ∷ [];
  edges = link 9 8 ∷ link 7 8 ∷ [];
  timestamp = 0;
}

abbrev Graph : Type 0
Graph = Arena ProcessNode NetworkEdge

abbrev world_or : Option (WorldGraph Graph) → WorldGraph Graph → WorldGraph Graph
world_or none w = w
world_or (some v) w = v

abbrev shown : WorldGraph Graph
shown = world_or (apply_snapshot arena snap (new arena)) (new arena)

apply_snapshot-snap : apply_snapshot arena snap (new arena) ≡ some shown
unfolding apply_snapshot new arena lookup insert remove add_process add_connection
apply_snapshot-snap = refl

zero_edge : arena.edge 0 shown.graph ≡ some (1, 0, link 9 8)
unfolding apply_snapshot new arena lookup insert remove add_process add_connection
zero_edge = refl

apply_snapshot-edges_example :
    IsPlaced arena (λ y. Memᴰ y snap.edges) shown.pid_index 1 0 (link 9 8)
apply_snapshot-edges_example =
    apply_snapshot-edges arena snap (new arena) shown (new-Keeps arena).wf apply_snapshot-snap 0 1 0
      (link 9 8) zero_edge
