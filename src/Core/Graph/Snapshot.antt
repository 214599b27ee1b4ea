-- ===== src/Core/Graph/Snapshot.antt =====
-- `apply_snapshot` makes the graph show exactly the processes of the snapshot.
use aether_terminal.Prelude.{
  ℕ, ◌≡◌, refl, ap, ◌∙◌, nat_eq, Bool, true, false, if◌then◌else◌, List, [], ◌∷◌, ◌==◌, Option,
  none, some, arith, Bool-cases, ◌⊎◌, inl, inr,
}
use aether_terminal.Prelude.Map.{Map, lookup, insert, lookup-insert}
use aether_terminal.Core.Models.{ProcessNode, NetworkEdge, SystemSnapshot}
use aether_terminal.Core.Petgraph.{StableGraph}
use aether_terminal.Core.Graph.{
  WorldGraph, is_some, keys, collect_pids, stale_pids, remove_process, remove_all, put_all,
  remove_edges, clear_edges, connect, connect_all, apply_snapshot,
}
use aether_terminal.Core.Graph.Indexed.{IsIndexed, process_at, Keeps, Sees, remove_process-Keeps}
use aether_terminal.Core.Graph.Calls.{put_process-Sees, same_nodes-Keeps, add_connection-Sees}

abbrev pub or_else : {A : Type 0} → Option A → Option A → Option A
or_else none b = b
or_else (some a) b = some a

-- The last process of the list that has the pid.
unfoldable pub last_with : ℕ → List ProcessNode → Option ProcessNode
last_with pid [] = none
last_with pid (n ∷ processes) =
    or_else (last_with pid processes) (if n.pid == pid then some n else none)

or_else-if :
    (o : Option ProcessNode) (n : ProcessNode) (b : Bool) (c : Option ProcessNode)
    → or_else o (if b then some n else c) ≡ or_else (or_else o (if b then some n else none)) c
or_else-if none n true c = refl
or_else-if none n false c = refl
or_else-if (some a) n b c = refl

lookup-collect_pids :
    (pid : ℕ) (processes : List ProcessNode) (m : Map ℕ ProcessNode)
    → lookup pid (collect_pids processes m) ≡ or_else (last_with pid processes) (lookup pid m)
unfolding collect_pids last_with
lookup-collect_pids pid [] m = refl
lookup-collect_pids pid (n ∷ processes) m =
    rw (lookup-collect_pids pid processes (insert n.pid n m), lookup-insert n.pid pid n m)
      (or_else-if (last_with pid processes) n (n.pid == pid) (lookup pid m))

-- What is left at a pid after the removal of a list of pids.
unfoldable pub removed : List ℕ → ℕ → Option ProcessNode → Option ProcessNode
removed [] pid o = o
removed (gone ∷ pids) pid o = removed pids pid (if gone == pid then none else o)

removed-none : (pids : List ℕ) (pid : ℕ) → removed pids pid none ≡ none
unfolding removed
removed-none [] pid = refl
removed-none (gone ∷ pids) pid = elim (Bool-cases (gone == pid)) [
  | inl b ↦ rw b (removed-none pids pid)
  | inr b ↦ rw b (removed-none pids pid)
]

removed-gone :
    {V : Type 0} (m : Map ℕ V) (new_pids : Map ℕ ProcessNode) (pid : ℕ) (o : Option ProcessNode)
    → is_some (lookup pid new_pids) ≡ false
    → (lookup pid m ≡ none → o ≡ none)
    → removed (stale_pids (keys m) new_pids) pid o ≡ none
unfolding removed stale_pids keys lookup
removed-gone [] new_pids pid o h absent = absent refl
removed-gone ((k, v) ∷ m) new_pids pid o h absent =
    go (removed-gone m new_pids pid o h) (Bool-cases (k == pid))
      (Bool-cases (is_some (lookup k new_pids)))
  where
    go :
        ((lookup pid m ≡ none → o ≡ none) → removed (stale_pids (keys m) new_pids) pid o ≡ none)
        → ((k == pid) ≡ true) ⊎ ((k == pid) ≡ false)
        → (is_some (lookup k new_pids) ≡ true) ⊎ (is_some (lookup k new_pids) ≡ false)
        → removed (stale_pids (keys ((k, v) ∷ m)) new_pids) pid o ≡ none
    go ih (inl e) (inl b) = absurd (grind (arith, e, b, h))
    go ih (inl e) (inr b) = rw b (rw (e, removed) (removed-none (stale_pids (keys m) new_pids) pid))
    go ih (inr e) (inl b) = rw b (ih (λ l. absent (rw e l)))
    go ih (inr e) (inr b) = rw b (rw (e, removed) (ih (λ l. absent (rw e l))))

module _ {G : Type 0} (p : StableGraph ProcessNode NetworkEdge G) where
  pub remove_all-Keeps :
      (pids : List ℕ) (w : WorldGraph G)
      → IsIndexed p w
      → Keeps p (remove_all p pids w) (λ pid. removed pids pid (process_at p w pid))
  unfolding remove_all removed
  remove_all-Keeps [] w h = record { wf = h; viewed = λ pid. refl }
  remove_all-Keeps (gone ∷ pids) w h =
      let one = remove_process-Keeps p gone w h in
      let rest = remove_all-Keeps pids (remove_process p gone w).0 one.wf in
      record {
        wf = rest.wf;
        viewed = λ pid. rest.viewed pid ∙ ap (removed pids pid) (one.viewed pid);
      }

  pub put_all-Sees :
      (processes : List ProcessNode) (w : WorldGraph G)
      → IsIndexed p w
      → Sees p
          (put_all p processes w)
          (λ pid. or_else (last_with pid processes) (process_at p w pid))
  unfolding put_all last_with
  put_all-Sees [] w h = record {
    world = w;
    returned = refl;
    keeps = record { wf = h; viewed = λ pid. refl };
  }
  put_all-Sees (n ∷ processes) w h =
      let one = put_process-Sees p n w h in
      let rest = put_all-Sees processes one.world one.keeps.wf in
      record {
        world = rest.world;
        returned = rw one.returned rest.returned;
        keeps = record {
          wf = rest.keeps.wf;
          viewed = λ pid.
              rest.keeps.viewed pid
              ∙ ap (or_else (last_with pid processes)) (one.keeps.viewed pid)
              ∙ or_else-if (last_with pid processes) n (n.pid == pid) (process_at p w pid);
        };
      }

  pub node-remove_edges :
      (indices : List ℕ) (g : G) (j : ℕ) → p.node j (remove_edges p indices g) ≡ p.node j g
  unfolding remove_edges
  node-remove_edges [] g j = refl
  node-remove_edges (i ∷ indices) g j =
      node-remove_edges indices (p.remove_edge i g) j ∙ p.node-remove_edge i g j

  connect-Sees :
      (x : NetworkEdge) (w : WorldGraph G) → IsIndexed p w → Sees p (connect p x w) (process_at p w)
  unfolding connect
  connect-Sees x w h = go x.dest_pid refl
    where
      go : (d : Option ℕ) → x.dest_pid ≡ d → Sees p (connect p x w) (process_at p w)
      go none e =
          rw (e, connect)
            (record { world = w; returned = refl; keeps = record { wf = h; viewed = λ pid. refl } })
      go (some dest) e = rw (e, connect) (add_connection-Sees p x.source_pid dest x w h)

  connect_all-Sees :
      (edges : List NetworkEdge) (w : WorldGraph G)
      → IsIndexed p w
      → Sees p (connect_all p edges w) (process_at p w)
  unfolding connect_all
  connect_all-Sees [] w h = record {
    world = w;
    returned = refl;
    keeps = record { wf = h; viewed = λ pid. refl };
  }
  connect_all-Sees (x ∷ edges) w h =
      let one = connect-Sees x w h in
      let rest = connect_all-Sees edges one.world one.keeps.wf in
      record {
        world = rest.world;
        returned = rw one.returned rest.returned;
        keeps = record {
          wf = rest.keeps.wf;
          viewed = λ pid. rest.keeps.viewed pid ∙ one.keeps.viewed pid;
        };
      }

  -- What the stale processes leave, under the processes of the snapshot, is the snapshot's own.
  survivors :
      (processes : List ProcessNode) (w : WorldGraph G) (pid : ℕ)
      → or_else (last_with pid processes) (
          removed
            (stale_pids (keys w.pid_index) (collect_pids processes []))
            pid
            (process_at p w pid))
        ≡ last_with pid processes
  unfolding process_at lookup
  survivors processes w pid = go (last_with pid processes) refl
    where
      new_pids : Map ℕ ProcessNode
      new_pids = collect_pids processes []

      go :
          (o : Option ProcessNode)
          → last_with pid processes ≡ o
          → or_else o (
              removed
                (stale_pids (keys w.pid_index) (collect_pids processes []))
                pid
                (process_at p w pid))
            ≡ o
      go (some n) e = refl
      go none e =
          removed-gone w.pid_index (collect_pids processes []) pid (process_at p w pid)
            (rw (lookup-collect_pids pid processes [], e) refl) (λ l. rw (l, process_at) refl)

  -- On a graph that keeps the invariant, `apply_snapshot` does not panic, keeps the invariant, and
  -- leaves for each pid the last process of the snapshot with that pid, and none for the others.
  pub apply_snapshot-Sees :
      (snapshot : SystemSnapshot) (w : WorldGraph G)
      → IsIndexed p w
      → Sees p (apply_snapshot p snapshot w) (λ pid. last_with pid snapshot.processes)
  unfolding apply_snapshot clear_edges
  apply_snapshot-Sees snapshot w h =
      let stale = stale_pids (keys w.pid_index) (collect_pids snapshot.processes []) in
      let gone = remove_all-Keeps stale w h in
      let put = put_all-Sees snapshot.processes (remove_all p stale w) gone.wf in
      let g = put.world.graph in
      let bare =
        same_nodes-Keeps p (remove_edges p (p.edge_indices g) g) put.world
          (node-remove_edges (p.edge_indices g) g) put.keeps.wf in
      let done = connect_all-Sees snapshot.edges (clear_edges p put.world) bare.wf in
      record {
        world = done.world;
        returned = rw put.returned done.returned;
        keeps = record {
          wf = done.keeps.wf;
          viewed = λ pid.
              done.keeps.viewed pid
              ∙ bare.viewed pid
              ∙ put.keeps.viewed pid
              ∙ ap (or_else (last_with pid snapshot.processes)) (gone.viewed pid)
              ∙ survivors snapshot.processes w pid;
        };
      }
