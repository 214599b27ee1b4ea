-- ===== src/Predict/Window/Tensor.antt =====
-- The layout of the tensor of crates/aether-predict/src/window.rs.
use aether_terminal.Prelude.{
  ℕ, zero, suc, ◌+◌, ◌*◌, ◌<◌, ◌≡◌, refl, ap, sym, ◌∙◌, true, Option, none, some, List, [], ◌∷◌,
  ◌++◌, append-nil, append_assoc, length, length-append, get_elem?, ◌==◌, ==_iff, arith,
}
use aether_terminal.Predict.Window.{
  SlidingWindow, get_window, extend_all, tensor_of, to_tensor, feature_dim, is_full, full_deque,
}

module _ {F : Type 0} where
  -- Every sample has `d` features.
  abbrev pub HaveLength : ℕ → List (List F) → Type 0
  HaveLength d [] = Unit
  HaveLength d (fv ∷ deque) = (length fv ≡ d) × HaveLength d deque

  -- Feature `k` of sample `i`.
  abbrev pub cell : ℕ → ℕ → List (List F) → Option F
  cell i k [] = none
  cell zero k (fv ∷ deque) = get_elem? fv k
  cell (suc i) k (fv ∷ deque) = cell i k deque

  abbrev rows : List (List F) → List F
  rows [] = []
  rows (fv ∷ deque) = fv ++ rows deque

  extend_all-rows :
      (tensor : List F) (deque : List (List F)) → extend_all tensor deque ≡ tensor ++ rows deque
  unfolding extend_all
  extend_all-rows tensor [] = sym (append-nil tensor)
  extend_all-rows tensor (fv ∷ deque) =
      extend_all-rows (tensor ++ fv) deque ∙ append_assoc tensor fv (rows deque)

  get_elem?-left :
      (xs ys : List F) (i : ℕ) → i < length xs → get_elem? (xs ++ ys) i ≡ get_elem? xs i
  get_elem?-left [] ys i h = absurd (omega arith)
  get_elem?-left (x ∷ xs) ys zero h = refl
  get_elem?-left (x ∷ xs) ys (suc i) h = get_elem?-left xs ys i (omega arith)

  get_elem?-right :
      (xs ys : List F) (i n : ℕ) → n ≡ length xs + i → get_elem? (xs ++ ys) n ≡ get_elem? ys i
  get_elem?-right [] ys i n h = ap (get_elem? ys) (omega arith)
  get_elem?-right (x ∷ xs) ys i zero h = absurd (omega arith)
  get_elem?-right (x ∷ xs) ys i (suc n) h = get_elem?-right xs ys i n (omega arith)

  length-rows :
      (d : ℕ) (deque : List (List F)) → HaveLength d deque → length (rows deque) ≡ length deque * d
  length-rows d [] h = omega arith
  length-rows d (fv ∷ deque) h =
      omega (arith, length-append fv (rows deque), length-rows d deque h.1, h.0)

  rows-cell :
      (d : ℕ) (deque : List (List F)) (i k : ℕ)
      → HaveLength d deque
      → i < length deque
      → k < d
      → get_elem? (rows deque) (i * d + k) ≡ cell i k deque
  rows-cell d [] i k h l m = absurd (omega arith)
  rows-cell d (fv ∷ deque) zero k h l m =
      ap (get_elem? (fv ++ rows deque)) (omega arith)
      ∙ get_elem?-left fv (rows deque) k (omega (arith, h.0))
  rows-cell d (fv ∷ deque) (suc i) k h l m =
      get_elem?-right fv (rows deque) (i * d + k) (suc i * d + k) (omega (arith, h.0))
      ∙ rows-cell d deque i k h.1 (omega arith) m

  full-tensor :
      (capacity : ℕ) (deque : List (List F))
      → (length deque == capacity) ≡ true
      → tensor_of capacity (some deque) ≡ some (rows deque)
  full-tensor capacity deque h = rw h (ap some (extend_all-rows [] deque))

  -- When the window of a process is full and its samples have nine features each, `to_tensor` gives
  -- a tensor with nine numbers for each place of the window, and feature `k` of sample `i`, the
  -- oldest first, stands at `i * 9 + k`.
  pub to_tensor-cell :
      (pid : ℕ) (w : SlidingWindow F) (deque : List (List F)) (i k : ℕ)
      → get_window pid w ≡ some deque
      → HaveLength feature_dim deque
      → is_full pid w ≡ true
      → i < w.capacity
      → k < feature_dim
      → (t : List F) × (to_tensor pid w ≡ some t)
        × (length t ≡ w.capacity * feature_dim)
        × (get_elem? t (i * feature_dim + k) ≡ cell i k deque)
  unfolding get_window to_tensor is_full
  to_tensor-cell pid w deque i k e h f l m =
      let full : (length deque == w.capacity) ≡ true = ap (full_deque w.capacity) (sym e) ∙ f in
      let size : length deque ≡ w.capacity = (==_iff (length deque) w.capacity).0 full in
      (
        rows deque,
        ap (tensor_of w.capacity) e ∙ full-tensor w.capacity deque full,
        length-rows feature_dim deque h ∙ ap (λ n. n * feature_dim) size,
        rows-cell feature_dim deque i k h (omega (arith, size)) m,
      )
