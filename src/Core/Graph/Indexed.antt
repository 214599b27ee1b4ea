-- ===== src/Core/Graph/Indexed.antt =====
-- The invariant of `WorldGraph`: the index has exactly the nodes in use, each under its pid.
use aether_terminal.Prelude.{
  ℕ, inl, inr, Option-cases, ◌≡◌, refl, nat_eq, if◌then◌else◌, ◌==◌, Option, none, some, arith,
}
use aether_terminal.Prelude.Map.{lookup, lookup-insert, lookup-remove}
use aether_terminal.Core.Models.{ProcessNode, NetworkEdge}
use aether_terminal.Core.Petgraph.{StableGraph}
use aether_terminal.Core.Graph.{WorldGraph, set_at, add_new, remove_process}

abbrev pub node_pid : Option ProcessNode → Option ℕ
node_pid none = none
node_pid (some n) = some n.pid

abbrev pub node_at : (ℕ → Option ProcessNode) → Option ℕ → Option ProcessNode
node_at node none = none
node_at node (some i) = node i

module _ {G : Type 0} (p : StableGraph ProcessNode NetworkEdge G) where
  -- A pid has an index exactly when the node of that index is in use and has that pid.
  pub record IsIndexed (w : WorldGraph G) : Type 0 where
    pub indexed :
        (pid i : ℕ) → lookup pid w.pid_index ≡ some i → node_pid (p.node i w.graph) ≡ some pid
    pub owned :
        (pid i : ℕ) → node_pid (p.node i w.graph) ≡ some pid → lookup pid w.pid_index ≡ some i

  -- The abstract view of the graph: at most one process for each pid.
  unfoldable pub process_at : WorldGraph G → ℕ → Option ProcessNode
  process_at w pid = node_at (λ i. p.node i w.graph) (lookup pid w.pid_index)

  -- A graph keeps the invariant and has this view.
  pub record Keeps (w : WorldGraph G) (view : ℕ → Option ProcessNode) : Type 0 where
    pub wf : IsIndexed w
    pub viewed : (pid : ℕ) → process_at w pid ≡ view pid

  -- A call returns, without a panic, such a graph.
  pub record Sees (r : Option (WorldGraph G)) (view : ℕ → Option ProcessNode) : Type 0 where
    pub world : WorldGraph G
    pub returned : r ≡ some world
    pub keeps : Keeps world view

  abbrev pub placed : ProcessNode → (ℕ → Option ProcessNode) → ℕ → Option ProcessNode
  placed n view pid = if n.pid == pid then some n else view pid

  pub in_use :
      (pid : ℕ) (o : Option ProcessNode)
      → node_pid o ≡ some pid
      → (n : ProcessNode) × (o ≡ some n) × (n.pid ≡ pid)
  in_use pid none e = absurd (cc e)
  in_use pid (some n) e = (n, refl, cc e)

  pub set_at-Sees :
      (idx : ℕ) (n : ProcessNode) (w : WorldGraph G)
      → IsIndexed w
      → lookup n.pid w.pid_index ≡ some idx
      → Sees (set_at p idx n w) (placed n (process_at w))
  unfolding set_at process_at
  set_at-Sees idx n w h at =
      let (old, found, same) = in_use n.pid (p.node idx w.graph) (h.indexed n.pid idx at) in
      record {
        world = record w { graph = p.set_node idx n w.graph };
        returned = rw found refl;
        keeps = record {
          wf = record {
            indexed = λ pid i e.
                let q = p.node-set_node idx old n w.graph i found in
                let c = h.indexed pid i e in grind (arith, q, e, at, c, same, found);
            owned = λ pid i e.
                let q = p.node-set_node idx old n w.graph i found in
                grind (arith, q, e, at, h.owned pid i);
          };
          viewed = λ pid. elim (Option-cases (lookup pid w.pid_index)) [
            | inl e ↦ rw e (grind (arith, at, e))
            | inr x ↦
                let (i, e) = x in
                rw e (
                  let q = p.node-set_node idx old n w.graph i found in
                  let c = h.indexed pid i e in grind (arith, q, e, at, c, same, found))
          ];
        };
      }

  pub add_new-Keeps :
      (n : ProcessNode) (w : WorldGraph G)
      → IsIndexed w
      → lookup n.pid w.pid_index ≡ none
      → Keeps ((add_new p n w).1) (placed n (process_at w))
  unfolding add_new process_at
  add_new-Keeps n w h absent =
      let fresh = p.node_fresh n w.graph in
      record {
        wf = record {
          indexed = λ pid i e.
              let q = p.node-add_node n w.graph i in
              let l = lookup-insert n.pid pid (p.add_node n w.graph).0 w.pid_index in
              let c = h.indexed pid i in grind (arith, q, e, l, c, fresh, absent);
          owned = λ pid i e.
              let q = p.node-add_node n w.graph i in
              let l = lookup-insert n.pid pid (p.add_node n w.graph).0 w.pid_index in
              let c = h.owned pid i in grind (arith, q, e, l, c, fresh, absent);
        };
        viewed = λ pid.
            let l = lookup-insert n.pid pid (p.add_node n w.graph).0 w.pid_index in
            let q = p.node-add_node n w.graph (p.add_node n w.graph).0 in
            elim (Option-cases (lookup pid w.pid_index)) [
              | inl e ↦ rw (l, e) (ground (arith, q))
              | inr x ↦
                  let (i, e) = x in
                  rw (l, e)
                    (let qi = p.node-add_node n w.graph i in
                      let c = h.indexed pid i e in grind (arith, q, qi, c, fresh))
            ];
      }

  abbrev pub dropped : ℕ → (ℕ → Option ProcessNode) → ℕ → Option ProcessNode
  dropped gone view pid = if gone == pid then none else view pid

  pub remove_process-Keeps :
      (gone : ℕ) (w : WorldGraph G)
      → IsIndexed w
      → Keeps ((remove_process p gone w).0) (dropped gone (process_at w))
  unfolding remove_process process_at
  remove_process-Keeps gone w h = go (lookup gone w.pid_index) refl
    where
      go :
          (o : Option ℕ)
          → lookup gone w.pid_index ≡ o
          → Keeps ((remove_process p gone w).0) (dropped gone (process_at w))
      go none absent =
          rw (absent, remove_process)
            (record {
              wf = h;
              viewed = λ pid. elim (Option-cases (lookup pid w.pid_index)) [
                | inl e ↦ rw e (grind (arith, absent, e))
                | inr x ↦ let (i, e) = x in rw e (grind (arith, absent, e))
              ];
            })
      go (some idx) at =
          rw (at, remove_process)
            (record {
              wf = record {
                indexed = λ pid i e.
                    let q = p.node-remove_node idx w.graph i in
                    let l = lookup-remove gone pid w.pid_index in
                    grind (arith, q, e, l, at, h.indexed pid i, h.indexed gone idx);
                owned = λ pid i e.
                    let q = p.node-remove_node idx w.graph i in
                    let l = lookup-remove gone pid w.pid_index in
                    grind (arith, q, e, l, at, h.owned pid i);
              };
              viewed = λ pid.
                  let l = lookup-remove gone pid w.pid_index in
                  elim (Option-cases (lookup pid w.pid_index)) [
                    | inl e ↦ rw (l, e) (ground arith)
                    | inr x ↦
                        let (i, e) = x in
                        rw (l, e)
                          (let q = p.node-remove_node idx w.graph i in
                            grind (arith, q, e, at, h.indexed pid i, h.indexed gone idx))
                  ];
            })
