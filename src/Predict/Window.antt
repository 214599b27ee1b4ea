-- ===== src/Predict/Window.antt =====
-- The sliding windows of crates/aether-predict/src/window.rs: for each process the latest samples,
-- the oldest first. A feature vector, an array of nine `f32` values, is a list over a parameter
-- type; where its length matters, a law names it.
pub mod Recent
pub mod Tensor
use aether_terminal.Prelude.{
  ℕ, ◌*◌, Bool, true, false, Option, none, some, List, [], ◌∷◌, ◌++◌, ◌==◌, ◌||◌, length,
  if◌then◌else◌, nat_eq,
}
use aether_terminal.Prelude.Map.{Map, lookup, insert}

abbrev pub feature_dim : ℕ
feature_dim = 9

module _ {F : Type 0} where
  -- `pop_front`.
  abbrev pub pop_front : List (List F) → List (List F)
  pop_front [] = []
  pop_front (x ∷ xs) = xs

  abbrev pub or_empty : Option (List (List F)) → List (List F)
  or_empty none = []
  or_empty (some deque) = deque

  -- Evicts the oldest sample when the length equals the capacity, then appends.
  abbrev pub appended : ℕ → List F → List (List F) → List (List F)
  appended capacity features deque =
      (if length deque == capacity then pop_front deque else deque) ++ features ∷ []

unfoldable pub contains : ℕ → List ℕ → Bool
contains pid [] = false
contains pid (p ∷ alive) = p == pid || contains pid alive

pub record SlidingWindow (F : Type 0) : Type 0 where
  pub windows : Map ℕ (List (List F))
  pub capacity : ℕ

module _ {F : Type 0} where
  unfoldable pub new : ℕ → SlidingWindow F
  new capacity = record { windows = []; capacity = capacity }

  unfoldable pub push : ℕ → List F → SlidingWindow F → SlidingWindow F
  push pid features w = record w {
    windows = insert pid (appended w.capacity features (or_empty (lookup pid w.windows))) w.windows;
  }

  unfoldable pub get_window : ℕ → SlidingWindow F → Option (List (List F))
  get_window pid w = lookup pid w.windows

  abbrev pub full_deque : ℕ → Option (List (List F)) → Bool
  full_deque capacity none = false
  full_deque capacity (some deque) = length deque == capacity

  unfoldable pub is_full : ℕ → SlidingWindow F → Bool
  is_full pid w = full_deque w.capacity (lookup pid w.windows)

  -- The loop of `to_tensor`.
  unfoldable pub extend_all : List F → List (List F) → List F
  extend_all tensor [] = tensor
  extend_all tensor (fv ∷ deque) = extend_all (tensor ++ fv) deque

  abbrev pub tensor_of : ℕ → Option (List (List F)) → Option (List F)
  tensor_of capacity none = none
  tensor_of capacity (some deque) =
      if length deque == capacity then some (extend_all [] deque) else none

  unfoldable pub to_tensor : ℕ → SlidingWindow F → Option (List F)
  to_tensor pid w = tensor_of w.capacity (lookup pid w.windows)

  unfoldable pub retain : List ℕ → Map ℕ (List (List F)) → Map ℕ (List (List F))
  retain alive [] = []
  retain alive ((pid, deque) ∷ windows) =
      let rest = retain alive windows in if contains pid alive then (pid, deque) ∷ rest else rest

  unfoldable pub cleanup : List ℕ → SlidingWindow F → SlidingWindow F
  cleanup alive w = record w { windows = retain alive w.windows }
