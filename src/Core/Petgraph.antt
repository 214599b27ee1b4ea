-- ===== src/Core/Petgraph.antt =====
-- What `aether-core` uses of `petgraph::StableGraph`, as its documentation states it: indices stay
-- valid when other nodes or edges go, a new index is not in use, and a node goes with its edges.
use aether_terminal.Prelude.{ℕ, ◌≡◌, ◌≢◌, ◌||◌, if◌then◌else◌, List, ◌==◌, Option, none, some, Memᴰ}

-- An edge is given by the indices of its ends and its weight.
unfoldable pub without_node : {E : Type 0} → ℕ → Option (ℕ × ℕ × E) → Option (ℕ × ℕ × E)
without_node i none = none
without_node i (some (a, b, w)) = if a == i || b == i then none else some (a, b, w)

pub record StableGraph (N E G : Type 0) : Type 0 where
  pub new : G
  pub node : ℕ → G → Option N
  pub edge : ℕ → G → Option (ℕ × ℕ × E)
  pub edge_indices : G → List ℕ
  pub add_node : N → G → ℕ × G
  -- `graph[i] = n` for an index in use.
  pub set_node : ℕ → N → G → G
  pub remove_node : ℕ → G → G
  -- Both ends are in use; else the call panics.
  pub add_edge : ℕ → ℕ → E → G → ℕ × G
  pub remove_edge : ℕ → G → G
  pub node-new : (i : ℕ) → node i new ≡ none
  pub edge-new : (i : ℕ) → edge i new ≡ none
  pub node_fresh : (n : N) (g : G) → node ((add_node n g).0) g ≡ none
  pub node-add_node :
      (n : N) (g : G) (j : ℕ)
      → node j ((add_node n g).1) ≡ (if (add_node n g).0 == j then some n else node j g)
  pub edge-add_node : (n : N) (g : G) (j : ℕ) → edge j ((add_node n g).1) ≡ edge j g
  pub node-set_node :
      (i : ℕ) (old n : N) (g : G) (j : ℕ)
      → node i g ≡ some old
      → node j (set_node i n g) ≡ (if i == j then some n else node j g)
  pub edge-set_node : (i : ℕ) (n : N) (g : G) (j : ℕ) → edge j (set_node i n g) ≡ edge j g
  pub node-remove_node :
      (i : ℕ) (g : G) (j : ℕ) → node j (remove_node i g) ≡ (if i == j then none else node j g)
  pub edge-remove_node :
      (i : ℕ) (g : G) (j : ℕ) → edge j (remove_node i g) ≡ without_node i (edge j g)
  pub node-add_edge : (a b : ℕ) (w : E) (g : G) (j : ℕ) → node j ((add_edge a b w g).1) ≡ node j g
  pub edge_fresh : (a b : ℕ) (w : E) (g : G) → edge ((add_edge a b w g).0) g ≡ none
  pub edge-add_edge :
      (a b : ℕ) (w : E) (g : G) (j : ℕ)
      → edge j ((add_edge a b w g).1)
        ≡ (if (add_edge a b w g).0 == j then some (a, b, w) else edge j g)
  pub node-remove_edge : (i : ℕ) (g : G) (j : ℕ) → node j (remove_edge i g) ≡ node j g
  pub edge-remove_edge :
      (i : ℕ) (g : G) (j : ℕ) → edge j (remove_edge i g) ≡ (if i == j then none else edge j g)
  pub edge_indices-covers : (g : G) (j : ℕ) → edge j g ≢ none → Memᴰ j (edge_indices g)
