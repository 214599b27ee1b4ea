-- ===== src/Core/Graph.antt =====
-- `WorldGraph` of `aether-core/src/graph.rs` over any `petgraph::StableGraph`. A call that panics,
-- as `graph[idx]` does for an index that is not in use, is `none`.
pub mod Indexed
pub mod Calls
pub mod Snapshot
pub mod Trace
pub mod Edges
mod Arena
mod Tests
use aether_terminal.Prelude.{
  ℕ, ◌≡◌, nat_eq, Bool, true, false, not, if◌then◌else◌, List, [], ◌∷◌, ◌==◌, Option, none, some,
  map,
}
use aether_terminal.Prelude.Map.{Map, lookup, insert, remove}
use aether_terminal.Core.Models.{ProcessNode, NetworkEdge, SystemSnapshot}
use aether_terminal.Core.Petgraph.{StableGraph}

pub record WorldGraph (G : Type 0) : Type 0 where
  pub graph : G
  pub pid_index : Map ℕ ℕ

abbrev pub and_then : {A B : Type 0} → Option A → (A → Option B) → Option B
and_then none f = none
and_then (some a) f = f a

abbrev pub is_some : {A : Type 0} → Option A → Bool
is_some none = false
is_some (some a) = true

module _ {V : Type 0} where
  unfoldable pub keys : Map ℕ V → List ℕ
  keys [] = []
  keys ((k, v) ∷ m) = k ∷ keys m

-- `collect` into a map: a later process takes the place of an earlier one with its pid.
unfoldable pub collect_pids : List ProcessNode → Map ℕ ProcessNode → Map ℕ ProcessNode
collect_pids [] m = m
collect_pids (p ∷ processes) m = collect_pids processes (insert p.pid p m)

-- The pids of the index that the map does not contain.
unfoldable pub stale_pids : List ℕ → Map ℕ ProcessNode → List ℕ
stale_pids [] new_pids = []
stale_pids (pid ∷ pids) new_pids =
    let rest = stale_pids pids new_pids in
    if is_some (lookup pid new_pids) then rest else pid ∷ rest

unfoldable pub pids : {G : Type 0} → WorldGraph G → List ℕ
pids w = keys w.pid_index

module _ {G : Type 0} (p : StableGraph ProcessNode NetworkEdge G) where
  unfoldable pub new : WorldGraph G
  new = record { graph = p.new; pid_index = [] }

  -- `graph[idx] = node`.
  unfoldable pub set_at : ℕ → ProcessNode → WorldGraph G → Option (WorldGraph G)
  set_at idx node w =
      and_then (p.node idx w.graph) (λ old. some (record w { graph = p.set_node idx node w.graph }))

  -- `graph.add_node(node)` and the entry of the index for it.
  unfoldable pub add_new : ProcessNode → WorldGraph G → ℕ × WorldGraph G
  add_new node w =
      let added = p.add_node node w.graph in
      (added.0, record { graph = added.1; pid_index = insert node.pid added.0 w.pid_index })

  unfoldable pub add_process : ProcessNode → WorldGraph G → Option (ℕ × WorldGraph G)
  unfolding set_at add_new
  add_process node w = elim (lookup node.pid w.pid_index) [
    | some idx ↦ and_then (set_at idx node w) (λ v. some (idx, v))
    | none ↦ some (add_new node w)
  ]

  -- With `true` when the process existed.
  unfoldable pub remove_process : ℕ → WorldGraph G → WorldGraph G × Bool
  remove_process pid w = elim (lookup pid w.pid_index) [
    | some idx ↦
        (record { graph = p.remove_node idx w.graph; pid_index = remove pid w.pid_index }, true)
    | none ↦ (w, false)
  ]

  unfoldable pub update_process :
      ℕ → (ProcessNode → ProcessNode) → WorldGraph G → Option (WorldGraph G)
  update_process pid f w = elim (lookup pid w.pid_index) [
    | some idx ↦
        and_then (p.node idx w.graph)
          (λ node. some (record w { graph = p.set_node idx (f node) w.graph }))
    | none ↦ some w
  ]

  -- `graph.add_edge(from, to, edge)`, which panics for a node that is not in use.
  unfoldable pub connect_at : ℕ → ℕ → NetworkEdge → WorldGraph G → Option (Option ℕ × WorldGraph G)
  connect_at from to edge w = and_then (p.node from w.graph) (λ a.
      and_then (p.node to w.graph) (λ b.
        let added = p.add_edge from to edge w.graph in
        some (some added.0, record w { graph = added.1 })))

  unfoldable pub add_connection :
      ℕ → ℕ → NetworkEdge → WorldGraph G → Option (Option ℕ × WorldGraph G)
  unfolding connect_at
  add_connection from_pid to_pid edge w = elim (lookup from_pid w.pid_index) [
    | none ↦ some (none, w)
    | some from ↦ elim (lookup to_pid w.pid_index) [
      | none ↦ some (none, w)
      | some to ↦ connect_at from to edge w
    ]
  ]

  unfoldable pub find_by_pid : ℕ → WorldGraph G → Option (Option ProcessNode)
  find_by_pid pid w = elim (lookup pid w.pid_index) [
    | none ↦ some none
    | some idx ↦ and_then (p.node idx w.graph) (λ node. some (some node))
  ]

  unfoldable pub remove_all : List ℕ → WorldGraph G → WorldGraph G
  unfolding remove_process
  remove_all [] w = w
  remove_all (pid ∷ pids) w = remove_all pids (remove_process pid w).0

  -- One process of the snapshot, added or put in place of the old one.
  unfoldable pub put_process : ProcessNode → WorldGraph G → Option (WorldGraph G)
  unfolding set_at add_process
  put_process node w = elim (lookup node.pid w.pid_index) [
    | some idx ↦ set_at idx node w
    | none ↦ and_then (add_process node w) (λ r. some (r.1))
  ]

  unfoldable pub put_all : List ProcessNode → WorldGraph G → Option (WorldGraph G)
  unfolding put_process
  put_all [] w = some w
  put_all (node ∷ processes) w = and_then (put_process node w) (put_all processes)

  unfoldable pub remove_edges : List ℕ → G → G
  remove_edges [] g = g
  remove_edges (i ∷ indices) g = remove_edges indices (p.remove_edge i g)

  unfoldable pub connect : NetworkEdge → WorldGraph G → Option (WorldGraph G)
  unfolding add_connection
  connect edge w = elim edge.dest_pid [
    | none ↦ some w
    | some dest ↦ and_then (add_connection edge.source_pid dest edge w) (λ r. some (r.1))
  ]

  unfoldable pub connect_all : List NetworkEdge → WorldGraph G → Option (WorldGraph G)
  unfolding connect
  connect_all [] w = some w
  connect_all (edge ∷ edges) w = and_then (connect edge w) (connect_all edges)

  unfoldable pub clear_edges : WorldGraph G → WorldGraph G
  unfolding remove_edges
  clear_edges w = record w { graph = remove_edges (p.edge_indices w.graph) w.graph }

  unfoldable pub apply_snapshot : SystemSnapshot → WorldGraph G → Option (WorldGraph G)
  unfolding remove_all put_all clear_edges connect_all stale_pids collect_pids keys
  apply_snapshot snapshot w =
      let new_pids = collect_pids snapshot.processes [] in
      let stale = stale_pids (keys w.pid_index) new_pids in
      and_then (put_all snapshot.processes (remove_all stale w))
        (λ v. connect_all snapshot.edges (clear_edges v))

  -- The ends and the weight of each edge; `edge_endpoints` has no answer for an edge that is gone.
  unfoldable pub edge_pairs_with_data : List ℕ → WorldGraph G → Option (List (ℕ × ℕ × NetworkEdge))
  edge_pairs_with_data [] w = some []
  edge_pairs_with_data (i ∷ indices) w =
      let rest = edge_pairs_with_data indices w in
      elim (p.edge i w.graph) [
        | none ↦ rest
        | some (a, b, weight) ↦ and_then (p.node a w.graph) (λ from.
            and_then (p.node b w.graph)
              (λ to. and_then rest (λ pairs. some ((from.pid, to.pid, weight) ∷ pairs))))
      ]
