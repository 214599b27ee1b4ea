-- ===== src/Core/Graph/Edges.antt =====
-- The edges that `apply_snapshot` leaves.
use aether_terminal.Prelude.{
  ℕ, ◌≡◌, refl, sym, ◌∙◌, nat_eq, Bool, true, false, if◌then◌else◌, List, [], ◌∷◌, ◌==◌, Option,
  none, some, Bool-cases, Option-cases, inl, inr, Memᴰ, subst, ==_iff,
}
use aether_terminal.Prelude.Map.{Map, lookup}
use aether_terminal.Core.Models.{ProcessNode, NetworkEdge, SystemSnapshot}
use aether_terminal.Core.Petgraph.{StableGraph}
use aether_terminal.Core.Graph.{
  WorldGraph, and_then, keys, collect_pids, stale_pids, remove_all, connect, connect_all,
  add_connection, connect_at, remove_edges, clear_edges, apply_snapshot,
}
use aether_terminal.Core.Graph.Indexed.{IsIndexed, in_use}
use aether_terminal.Core.Graph.Calls.{same_nodes-Keeps}
use aether_terminal.Core.Graph.Snapshot.{remove_all-Keeps, put_all-Sees, node-remove_edges}

if-true : {A : Type 0} (b : Bool) (x y : A) → b ≡ true → (if b then x else y) ≡ x
if-true b x y e = rw e refl

if-false : {A : Type 0} (b : Bool) (x y : A) → b ≡ false → (if b then x else y) ≡ y
if-false b x y e = rw e refl

some-injective : {A : Type 0} {x y : A} → some x ≡ some y → x ≡ y
some-injective q = cc q

some-none : {A : Type 0} {x : A} → none ≡ some x → ⊥
some-none q = cc q

module _ {G : Type 0} (p : StableGraph ProcessNode NetworkEdge G)
    (Known : NetworkEdge → Type 0) where
  -- An edge between the nodes of its own two pids.
  pub record IsPlaced (pid_index : Map ℕ ℕ) (i j : ℕ) (x : NetworkEdge) : Type 0 where
    pub known : Known x
    pub from : lookup x.source_pid pid_index ≡ some i
    pub dest : ℕ
    pub dest_pid : x.dest_pid ≡ some dest
    pub to : lookup dest pid_index ≡ some j

  abbrev pub Wired : WorldGraph G → Type 0
  Wired w =
      (e i j : ℕ) (x : NetworkEdge) → p.edge e w.graph ≡ some (i, j, x) → IsPlaced w.pid_index i j x

  pub record Wires (r : Option (WorldGraph G)) : Type 0 where
    pub world : WorldGraph G
    pub returned : r ≡ some world
    pub wf : IsIndexed p world
    pub wired : Wired world

  unchanged : (w : WorldGraph G) → IsIndexed p w → Wired w → Wires (some w)
  unchanged w h wired = record { world = w; returned = refl; wf = h; wired = wired }

  added :
      (i j : ℕ) (x : NetworkEdge) (w : WorldGraph G)
      → IsIndexed p w
      → Wired w
      → IsPlaced w.pid_index i j x
      → Wires (some (record w { graph = (p.add_edge i j x w.graph).1 }))
  added i j x w h wired placed = record {
    world = record w { graph = (p.add_edge i j x w.graph).1 };
    returned = refl;
    wf = (same_nodes-Keeps p (p.add_edge i j x w.graph).1 w (p.node-add_edge i j x w.graph) h).wf;
    wired = λ e k l y at.
        let q = sym (p.edge-add_edge i j x w.graph e) ∙ at in
        elim (Bool-cases ((p.add_edge i j x w.graph).0 == e)) [
          | inl b ↦
              let r =
                sym (
                  if-true ((p.add_edge i j x w.graph).0 == e) (some (i, j, x)) (p.edge e w.graph) b)
                ∙ q in
              subst (λ t. IsPlaced w.pid_index (t.0) (t.1) (t.2)) (some-injective r) placed
          | inr b ↦ wired e k l y (
              sym
                (if-false ((p.add_edge i j x w.graph).0 == e) (some (i, j, x)) (p.edge e w.graph) b)
              ∙ q)
        ];
  }

  connect-Wires :
      (x : NetworkEdge) (w : WorldGraph G)
      → IsIndexed p w
      → Wired w
      → Known x
      → Wires (connect p x w)
  unfolding connect add_connection connect_at
  connect-Wires x w h wired known = go x.dest_pid refl
    where
      joined :
          (d : ℕ)
          → x.dest_pid ≡ some d
          → (a b : Option ℕ) → lookup x.source_pid w.pid_index ≡ a
          → lookup d w.pid_index ≡ b
          → Wires (and_then (add_connection p x.source_pid d x w) (λ r. some (r.1)))
      joined d ed none b ea eb = rw (ea, add_connection) (unchanged w h wired)
      joined d ed (some i) none ea eb = rw (ea, add_connection) (rw eb (unchanged w h wired))
      joined d ed (some i) (some j) ea eb =
          let (n, fn, sn) =
            in_use p x.source_pid (p.node i w.graph) (h.indexed x.source_pid i ea) in
          let (m, fm, sm) = in_use p d (p.node j w.graph) (h.indexed d j eb) in
          rw (ea, add_connection)
            (rw eb (
              rw (fn, connect_at)
                (rw fm (
                  added i j x w h wired
                    (record { known = known; from = ea; dest = d; dest_pid = ed; to = eb })))))

      go : (o : Option ℕ) → x.dest_pid ≡ o → Wires (connect p x w)
      go none e = rw (e, connect) (unchanged w h wired)
      go (some d) e =
          rw (e, connect)
            (joined d e (lookup x.source_pid w.pid_index) (lookup d w.pid_index) refl refl)

  pub connect_all-Wires :
      (edges : List NetworkEdge) (w : WorldGraph G)
      → IsIndexed p w
      → Wired w
      → ((x : NetworkEdge) → Memᴰ x edges → Known x)
      → Wires (connect_all p edges w)
  unfolding connect_all
  connect_all-Wires [] w h wired known = unchanged w h wired
  connect_all-Wires (x ∷ edges) w h wired known =
      let one = connect-Wires x w h wired (known x (Memᴰ.head refl)) in
      let rest =
        connect_all-Wires edges one.world one.wf one.wired (λ y m. known y (Memᴰ.tail m)) in
      record {
        world = rest.world;
        returned = rw one.returned rest.returned;
        wf = rest.wf;
        wired = rest.wired;
      }

  edge-remove_edges_gone :
      (indices : List ℕ) (g : G) (j : ℕ)
      → p.edge j g ≡ none
      → p.edge j (remove_edges p indices g) ≡ none
  unfolding remove_edges
  edge-remove_edges_gone [] g j e = e
  edge-remove_edges_gone (i ∷ indices) g j e =
      edge-remove_edges_gone indices (p.remove_edge i g) j (
        p.edge-remove_edge i g j
        ∙ (elim (Bool-cases (i == j)) [ inl b ↦ rw b refl | inr b ↦ rw b e ]))

  edge-remove_edges :
      (indices : List ℕ) (g : G) (j : ℕ)
      → Memᴰ j indices
      → p.edge j (remove_edges p indices g) ≡ none
  unfolding remove_edges
  edge-remove_edges [] g j m = elim m [ ]
  edge-remove_edges (i ∷ indices) g j (Memᴰ.head e) =
      edge-remove_edges_gone indices (p.remove_edge i g) j
        (p.edge-remove_edge i g j ∙ (rw ((==_iff i j).1 (sym e)) refl))
  edge-remove_edges (i ∷ indices) g j (Memᴰ.tail m) =
      edge-remove_edges indices (p.remove_edge i g) j m

  clear_edges-Wired : (w : WorldGraph G) → Wired (clear_edges p w)
  unfolding clear_edges
  clear_edges-Wired w e i j x at = elim (Option-cases (p.edge e w.graph)) [
    | inl z ↦
        absurd (some-none (sym (edge-remove_edges_gone (p.edge_indices w.graph) w.graph e z) ∙ at))
    | inr y ↦
        let (t, z) = y in
        let m = p.edge_indices-covers w.graph e (λ n. some-none (sym n ∙ z)) in
        absurd (some-none (sym (edge-remove_edges (p.edge_indices w.graph) w.graph e m) ∙ at))
  ]

-- After `apply_snapshot` on a graph that keeps the invariant, every edge of the graph is an edge of
-- the snapshot, with a destination pid, and lies between the nodes of its source and destination.
pub apply_snapshot-edges :
    {G : Type 0} (p : StableGraph ProcessNode NetworkEdge G) (snapshot : SystemSnapshot)
    (w v : WorldGraph G)
    → IsIndexed p w
    → apply_snapshot p snapshot w ≡ some v
    → (e i j : ℕ) (x : NetworkEdge) → p.edge e v.graph ≡ some (i, j, x)
    → IsPlaced p (λ y. Memᴰ y snapshot.edges) v.pid_index i j x
unfolding apply_snapshot clear_edges
apply_snapshot-edges p snapshot w v h done e i j x at =
    let Known = λ (y : NetworkEdge). Memᴰ y snapshot.edges in
    let stale = stale_pids (keys w.pid_index) (collect_pids snapshot.processes []) in
    let gone = remove_all-Keeps p stale w h in
    let put = put_all-Sees p snapshot.processes (remove_all p stale w) gone.wf in
    let g = put.world.graph in
    let bare =
      same_nodes-Keeps p (remove_edges p (p.edge_indices g) g) put.world
        (node-remove_edges p (p.edge_indices g) g) put.keeps.wf in
    let s =
      connect_all-Wires p Known snapshot.edges (clear_edges p put.world) bare.wf
        (clear_edges-Wired p Known put.world) (λ y m. m) in
    let same = some-injective (sym (rw put.returned s.returned) ∙ done) in
    subst
      (λ u.
        (e i j : ℕ) (x : NetworkEdge)
        → p.edge e u.graph ≡ some (i, j, x)
        → IsPlaced p Known u.pid_index i j x)
      same s.wired e i j x at
