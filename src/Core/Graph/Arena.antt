-- ===== src/Core/Graph/Arena.antt =====
-- A concrete `StableGraph` for runs: the nodes and edges so far, by index, each perhaps gone.
use aether_terminal.Prelude.{
  ℕ, zero, suc, ◌<◌, ◌≡◌, ◌≢◌, refl, Bool, true, false, ltb, if◌then◌else◌, List, [], ◌∷◌, ◌==◌,
  Option, none, some, arith, Memᴰ, Bool-cases, inl, inr,
}
use aether_terminal.Core.Petgraph.{StableGraph, without_node}

pub record Arena (N E : Type 0) : Type 0 where
  pub next_node : ℕ
  pub nodes : ℕ → Option N
  pub next_edge : ℕ
  pub edges : ℕ → Option (ℕ × ℕ × E)

-- The indices below a number.
abbrev pub below : ℕ → List ℕ
below zero = []
below (suc n) = n ∷ below n

below-covers : (n j : ℕ) → j < n → Memᴰ j (below n)
below-covers zero j h = absurd (omega arith)
below-covers (suc n) j h = elim (Bool-cases (j == n)) [
  | inl e ↦ Memᴰ.head (ground (arith, e))
  | inr e ↦ Memᴰ.tail (below-covers n j (ground (arith, e, h)))
]

pub without_node-if :
    {E : Type 0} (i : ℕ) (b : Bool) (o : Option (ℕ × ℕ × E))
    → (if b then without_node i o else none) ≡ without_node i (if b then o else none)
unfolding without_node
without_node-if i true o = refl
without_node-if i false o = refl

module _ {N E : Type 0} where
  abbrev pub node : ℕ → Arena N E → Option N
  node i g = if ltb i g.next_node then g.nodes i else none

  abbrev pub edge : ℕ → Arena N E → Option (ℕ × ℕ × E)
  edge i g = if ltb i g.next_edge then g.edges i else none

  abbrev pub add_node : N → Arena N E → ℕ × Arena N E
  add_node n g = (
    g.next_node,
    record g {
      next_node = suc g.next_node;
      nodes = λ i. if g.next_node == i then some n else g.nodes i;
    },
  )

  abbrev pub set_node : ℕ → N → Arena N E → Arena N E
  set_node i n g = record g { nodes = λ j. if i == j then some n else g.nodes j }

  abbrev pub remove_node : ℕ → Arena N E → Arena N E
  remove_node i g = record g {
    nodes = λ j. if i == j then none else g.nodes j;
    edges = λ j. without_node i (g.edges j);
  }

  abbrev pub add_edge : ℕ → ℕ → E → Arena N E → ℕ × Arena N E
  add_edge a b w g = (
    g.next_edge,
    record g {
      next_edge = suc g.next_edge;
      edges = λ i. if g.next_edge == i then some (a, b, w) else g.edges i;
    },
  )

  abbrev pub remove_edge : ℕ → Arena N E → Arena N E
  remove_edge i g = record g { edges = λ j. if i == j then none else g.edges j }

  abbrev pub edge_indices : Arena N E → List ℕ
  edge_indices g = below g.next_edge

  pub edge_indices-covers : (g : Arena N E) (j : ℕ) → edge j g ≢ none → Memᴰ j (edge_indices g)
  edge_indices-covers g j h = elim (Bool-cases (ltb j g.next_edge)) [
    | inl e ↦ below-covers g.next_edge j (ground (arith, e))
    | inr e ↦ absurd (h (rw e refl))
  ]

  unfoldable pub arena : StableGraph N E (Arena N E)
  arena = record {
    new = record { next_node = 0; nodes = λ i. none; next_edge = 0; edges = λ i. none };
    node = node;
    edge = edge;
    edge_indices = edge_indices;
    add_node = add_node;
    set_node = set_node;
    remove_node = remove_node;
    add_edge = add_edge;
    remove_edge = remove_edge;
    node-new = λ i. ground arith;
    edge-new = λ i. ground arith;
    node_fresh = λ n g. ground arith;
    node-add_node = λ n g j. ground arith;
    edge-add_node = λ n g j. refl;
    node-set_node = λ i old n g j h. grind (arith, h);
    edge-set_node = λ i n g j. refl;
    node-remove_node = λ i g j. ground arith;
    edge-remove_node = λ i g j. without_node-if i (ltb j g.next_edge) (g.edges j);
    node-add_edge = λ a b w g j. refl;
    edge_fresh = λ a b w g. ground arith;
    edge-add_edge = λ a b w g j. ground arith;
    node-remove_edge = λ i g j. refl;
    edge-remove_edge = λ i g j. ground arith;
    edge_indices-covers = edge_indices-covers;
  }
