-- ===== src/Core/Graph/Calls.antt =====
-- Every call of `WorldGraph` on its view by pid.
use aether_terminal.Prelude.{
  ℕ, ◌≡◌, refl, sym, ap, ◌∙◌, nat_eq, if◌then◌else◌, ◌==◌, Option, none, some, arith, Option-cases,
  Bool-cases, ==_iff, inl, inr,
}
use aether_terminal.Prelude.Map.{lookup}
use aether_terminal.Core.Models.{ProcessNode, NetworkEdge}
use aether_terminal.Core.Petgraph.{StableGraph}
use aether_terminal.Core.Graph.{
  WorldGraph, and_then, new, set_at, add_new, add_process, update_process, connect_at,
  add_connection, find_by_pid, put_process,
}
use aether_terminal.Core.Graph.Indexed.{
  IsIndexed, node_pid, in_use, node_at, process_at, Keeps, Sees, placed, set_at-Sees, add_new-Keeps,
}

abbrev pub mapped : (ProcessNode → ProcessNode) → Option ProcessNode → Option ProcessNode
mapped f none = none
mapped f (some n) = some (f n)

abbrev pub apply_at :
    ℕ → (ProcessNode → ProcessNode) → (ℕ → Option ProcessNode) → ℕ → Option ProcessNode
apply_at target f view pid = if target == pid then mapped f (view pid) else view pid

module _ {G : Type 0} (p : StableGraph ProcessNode NetworkEdge G) where
  pub new-Keeps : Keeps p (new p) (λ pid. none)
  unfolding new process_at lookup
  new-Keeps = record {
    wf = record {
      indexed = λ pid i e. absurd (cc e);
      owned = λ pid i e. grind (arith, p.node-new i, e);
    };
    viewed = λ pid. refl;
  }

  -- In a graph that keeps the invariant, `find_by_pid` does not panic and gives the view.
  pub find_by_pid_lem :
      (pid : ℕ) (w : WorldGraph G) → IsIndexed p w → find_by_pid p pid w ≡ some (process_at p w pid)
  unfolding find_by_pid process_at
  find_by_pid_lem pid w h = go (lookup pid w.pid_index) refl
    where
      go :
          (o : Option ℕ)
          → lookup pid w.pid_index ≡ o
          → find_by_pid p pid w ≡ some (process_at p w pid)
      go none e = rw (e, find_by_pid) refl
      go (some i) e =
          let (n, f, s) = in_use p pid (p.node i w.graph) (h.indexed pid i e) in
          rw (e, find_by_pid) (rw f refl)

  -- The world that a call with a second result leaves.
  abbrev pub left_by : {A : Type 0} → Option (A × WorldGraph G) → Option (WorldGraph G)
  left_by r = and_then r (λ x. some (x.1))

  pub add_process-Sees :
      (n : ProcessNode) (w : WorldGraph G)
      → IsIndexed p w
      → Sees p (left_by (add_process p n w)) (placed p n (process_at p w))
  unfolding add_process
  add_process-Sees n w h = go (lookup n.pid w.pid_index) refl
    where
      go :
          (o : Option ℕ)
          → lookup n.pid w.pid_index ≡ o
          → Sees p (left_by (add_process p n w)) (placed p n (process_at p w))
      go none e =
          rw (e, add_process)
            (record { world = (add_new p n w).1; returned = refl; keeps = add_new-Keeps p n w h e })
      go (some i) e =
          let s = set_at-Sees p i n w h e in
          rw (e, add_process)
            (record { world = s.world; returned = rw s.returned refl; keeps = s.keeps })

  pub put_process-Sees :
      (n : ProcessNode) (w : WorldGraph G)
      → IsIndexed p w
      → Sees p (put_process p n w) (placed p n (process_at p w))
  unfolding put_process add_process
  put_process-Sees n w h = go (lookup n.pid w.pid_index) refl
    where
      go :
          (o : Option ℕ)
          → lookup n.pid w.pid_index ≡ o
          → Sees p (put_process p n w) (placed p n (process_at p w))
      go none e =
          rw (e, put_process)
            (rw (e, add_process)
              (record {
                world = (add_new p n w).1;
                returned = refl;
                keeps = add_new-Keeps p n w h e;
              }))
      go (some i) e = rw (e, put_process) (set_at-Sees p i n w h e)

  Keeps-same :
      (w : WorldGraph G) (u v : ℕ → Option ProcessNode)
      → Keeps p w u
      → ((pid : ℕ) → u pid ≡ v pid)
      → Keeps p w v
  Keeps-same w u v k e = record { wf = k.wf; viewed = λ pid. k.viewed pid ∙ e pid }

  -- What changes only edges keeps the invariant and the view.
  pub same_nodes-Keeps :
      (g : G) (w : WorldGraph G)
      → ((j : ℕ) → p.node j g ≡ p.node j w.graph)
      → IsIndexed p w
      → Keeps p (record w { graph = g }) (process_at p w)
  unfolding process_at
  same_nodes-Keeps g w same h = record {
    wf = record {
      indexed = λ pid i e. rw (same i) (h.indexed pid i e);
      owned = λ pid i e. h.owned pid i (ap node_pid (sym (same i)) ∙ e);
    };
    viewed = λ pid. ap (λ f. node_at f (lookup pid w.pid_index)) (λ i j. same j i);
  }

  update_process_found :
      (target i : ℕ) (f : ProcessNode → ProcessNode) (n : ProcessNode) (w : WorldGraph G)
      → lookup target w.pid_index ≡ some i
      → p.node i w.graph ≡ some n
      → update_process p target f w ≡ set_at p i (f n) w
  unfolding update_process set_at
  update_process_found target i f n w e found = rw (e, update_process) (rw found refl)

  placed-apply_at :
      (target i : ℕ) (f : ProcessNode → ProcessNode) (n : ProcessNode) (w : WorldGraph G)
      → lookup target w.pid_index ≡ some i
      → p.node i w.graph ≡ some n
      → (f n).pid ≡ target
      → (pid : ℕ) → placed p (f n) (process_at p w) pid ≡ apply_at target f (process_at p w) pid
  unfolding process_at
  placed-apply_at target i f n w e found s pid =
      let view = process_at p w in
      ap (λ t. if t == pid then some (f n) else view pid) s ∙ (elim (Bool-cases (target == pid)) [
        | inl b ↦ rw b (
            let at : process_at p w target ≡ some n = rw (e, process_at) found in
            rw (← (==_iff target pid).0 b) (rw at refl))
        | inr b ↦ rw b refl
      ])

  pub update_process-Sees :
      (target : ℕ) (f : ProcessNode → ProcessNode) (w : WorldGraph G)
      → IsIndexed p w
      → ((n : ProcessNode) → (f n).pid ≡ n.pid)
      → Sees p (update_process p target f w) (apply_at target f (process_at p w))
  unfolding update_process process_at set_at
  update_process-Sees target f w h keeps = go (lookup target w.pid_index) refl
    where
      go :
          (o : Option ℕ)
          → lookup target w.pid_index ≡ o
          → Sees p (update_process p target f w) (apply_at target f (process_at p w))
      go none e =
          rw (e, update_process)
            (record {
              world = w;
              returned = refl;
              keeps = record {
                wf = h;
                viewed = λ pid. elim (Option-cases (lookup pid w.pid_index)) [
                  | inl x ↦ rw x (ground arith)
                  | inr x ↦ let (i, e') = x in rw e' (grind (arith, e, e'))
                ];
              };
            })
      go (some i) e =
          let (n, found, s) = in_use p target (p.node i w.graph) (h.indexed target i e) in
          let k = set_at-Sees p i (f n) w h (rw (keeps n, s) e) in
          record {
            world = k.world;
            returned = update_process_found target i f n w e found ∙ k.returned;
            keeps =
                Keeps-same k.world (placed p (f n) (process_at p w))
                  (apply_at target f (process_at p w)) k.keeps
                  (λ pid. placed-apply_at target i f n w e found (keeps n ∙ s) pid);
          }

  -- Nodes that are in use can be connected; what is in the way is a pid that the graph lacks.
  pub add_connection-Sees :
      (from_pid to_pid : ℕ) (x : NetworkEdge) (w : WorldGraph G)
      → IsIndexed p w
      → Sees p (left_by (add_connection p from_pid to_pid x w)) (process_at p w)
  unfolding add_connection connect_at
  add_connection-Sees from_pid to_pid x w h =
      go (lookup from_pid w.pid_index) (lookup to_pid w.pid_index) refl refl
    where
      unchanged : Sees p (some w) (process_at p w)
      unchanged = record {
        world = w;
        returned = refl;
        keeps = record { wf = h; viewed = λ pid. refl };
      }

      go :
          (a b : Option ℕ)
          → lookup from_pid w.pid_index ≡ a
          → lookup to_pid w.pid_index ≡ b
          → Sees p (left_by (add_connection p from_pid to_pid x w)) (process_at p w)
      go none b ea eb = rw (ea, add_connection) unchanged
      go (some i) none ea eb = rw (ea, add_connection) (rw eb unchanged)
      go (some i) (some j) ea eb =
          let (n, fn, sn) = in_use p from_pid (p.node i w.graph) (h.indexed from_pid i ea) in
          let (m, fm, sm) = in_use p to_pid (p.node j w.graph) (h.indexed to_pid j eb) in
          rw (ea, add_connection)
            (rw eb (
              rw (fn, connect_at)
                (rw fm (record {
                  world = record w { graph = (p.add_edge i j x w.graph).1 };
                  returned = refl;
                  keeps =
                      same_nodes-Keeps (p.add_edge i j x w.graph).1 w
                        (p.node-add_edge i j x w.graph) h;
                }))))
