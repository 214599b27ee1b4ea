-- ===== src/Predict/Tests.antt =====
-- Concrete windows of crates/aether-predict/src/window.rs.
use aether_terminal.Predict.Window.Tensor.{cell, to_tensor-cell}
use aether_terminal.Prelude.Map.{lookup}
use aether_terminal.Prelude.{
  length, replicate, get_elem?, ◌*◌, ◌+◌, ℕ, ◌≡◌, refl, true, none, some, List, [], ◌∷◌, arith,
  if◌then◌else◌,
}
use aether_terminal.Predict.Window.{
  SlidingWindow, to_tensor, is_full, feature_dim, get_window, cleanup, contains,
}
use aether_terminal.Predict.Window.Recent.{
  filled, samples, latest, filled-latest, get_window-cleanup,
}

-- Samples of one number, the latest first; process 1 has three of them.
abbrev some_pushes : List (ℕ × List ℕ)
some_pushes = (1, 40 ∷ []) ∷ (2, 30 ∷ []) ∷ (1, 20 ∷ []) ∷ (1, 10 ∷ []) ∷ []

latest-two : latest 2 (samples 1 some_pushes) ≡ some ((20 ∷ []) ∷ (40 ∷ []) ∷ [])
latest-two = refl

filled-latest_example : get_window 1 (filled 2 some_pushes) ≡ latest 2 (samples 1 some_pushes)
filled-latest_example = filled-latest 1 2 some_pushes (omega arith)

get_window-cleanup_example :
    get_window 1 (cleanup (2 ∷ []) (filled 2 some_pushes))
    ≡ (if contains 1 (2 ∷ []) then get_window 1 (filled 2 some_pushes) else none)
get_window-cleanup_example = get_window-cleanup 1 (2 ∷ []) (filled 2 some_pushes)

abbrev two_rows : List (List ℕ)
two_rows = replicate 9 4 ∷ (1 ∷ 2 ∷ 3 ∷ 4 ∷ 5 ∷ 6 ∷ 7 ∷ 8 ∷ 9 ∷ []) ∷ []

abbrev full_window : SlidingWindow ℕ
full_window = record { windows = (1, two_rows) ∷ []; capacity = 2 }

two_rows-window : get_window 1 full_window ≡ some two_rows
unfolding get_window lookup
two_rows-window = refl

is_full-two : is_full 1 full_window ≡ true
unfolding is_full lookup
is_full-two = refl

to_tensor-cell_example :
    (t : List ℕ) × (to_tensor 1 full_window ≡ some t)
    × (length t ≡ 2 * feature_dim)
    × (get_elem? t (1 * feature_dim + 3) ≡ cell 1 3 two_rows)
to_tensor-cell_example =
    to_tensor-cell 1 full_window two_rows 1 3 two_rows-window (refl, (refl, tt)) is_full-two
      (omega arith) (omega arith)
