-- ===== src/Predict/Window/Recent.antt =====
-- The windows of crates/aether-predict/src/window.rs against the history of samples.
use aether_terminal.Prelude.{
  ℕ, zero, suc, ◌+◌, ◌-◌, ◌≤◌, ◌<◌, ◌≡◌, refl, ap, sym, ◌∙◌, true, false, Option, none, some, List,
  [], ◌∷◌, ◌++◌, ◌==◌, length, length-append, length-drop, drop, if◌then◌else◌, arith, nat_eq,
  Bool-cases, inl, inr, leb, leb→le, ==_iff,
}
use aether_terminal.Prelude.Map.{Map, lookup, lookup-insert}
use aether_terminal.Predict.Window.{
  SlidingWindow, new, push, get_window, appended, pop_front, or_empty, contains, retain, cleanup,
}

module _ {F : Type 0} where
  -- The window after pushes, the latest first.
  unfoldable pub filled : ℕ → List (ℕ × List F) → SlidingWindow F
  filled capacity [] = new capacity
  filled capacity ((pid, features) ∷ older) = push pid features (filled capacity older)

  -- The samples of a process, the oldest first.
  abbrev pub samples : ℕ → List (ℕ × List F) → List (List F)
  samples pid [] = []
  samples pid ((q, features) ∷ older) =
      let rest = samples pid older in if q == pid then rest ++ features ∷ [] else rest

  -- The last `capacity` samples, if there is one at all.
  abbrev pub latest : ℕ → List (List F) → Option (List (List F))
  latest capacity [] = none
  latest capacity (x ∷ xs) = some (drop (length (x ∷ xs) - capacity) (x ∷ xs))

  drop-append :
      (n : ℕ) (xs ys : List (List F)) → n ≤ length xs → drop n xs ++ ys ≡ drop n (xs ++ ys)
  drop-append zero xs ys h = refl
  drop-append (suc n) [] ys h = absurd (omega arith)
  drop-append (suc n) (x ∷ xs) ys h = drop-append n xs ys (omega arith)

  pop_front-drop : (n : ℕ) (xs : List (List F)) → pop_front (drop n xs) ≡ drop (suc n) xs
  pop_front-drop zero [] = refl
  pop_front-drop zero (x ∷ xs) = refl
  pop_front-drop (suc n) [] = refl
  pop_front-drop (suc n) (x ∷ xs) = pop_front-drop n xs

  latest-append :
      (capacity : ℕ) (xs : List (List F)) (x : List F)
      → latest capacity (xs ++ x ∷ []) ≡ some (drop (length xs + 1 - capacity) (xs ++ x ∷ []))
  latest-append capacity [] x = refl
  latest-append capacity (y ∷ xs) x =
      ap (λ n. some (drop n (y ∷ xs ++ x ∷ []))) (omega (arith, length-append xs (x ∷ [])))

  drop-nil : (n : ℕ) → drop {A = List F} n [] ≡ []
  drop-nil zero = refl
  drop-nil (suc n) = refl

  or_empty-latest :
      (capacity : ℕ) (xs : List (List F))
      → or_empty (latest capacity xs) ≡ drop (length xs - capacity) xs
  or_empty-latest capacity [] = sym (drop-nil (0 - capacity))
  or_empty-latest capacity (x ∷ xs) = refl

  drop-same : (m n : ℕ) (xs : List (List F)) → m ≡ n → drop m xs ≡ drop n xs
  drop-same m n xs e = ap (λ k. drop k xs) e

  pop-latest :
      (capacity : ℕ) (xs : List (List F)) (x : List F)
      → 0 < capacity
      → capacity ≤ length xs
      → pop_front (drop (length xs - capacity) xs) ++ x ∷ []
        ≡ drop (length xs + 1 - capacity) (xs ++ x ∷ [])
  pop-latest capacity xs x h full =
      ap (λ ys. ys ++ x ∷ []) (pop_front-drop (length xs - capacity) xs)
      ∙ drop-append (suc (length xs - capacity)) xs (x ∷ []) (omega arith)
      ∙ drop-same (suc (length xs - capacity)) (length xs + 1 - capacity) (xs ++ x ∷ [])
          (omega arith)

  appended-full :
      (capacity : ℕ) (x : List F) (deque : List (List F))
      → length deque ≡ capacity
      → appended capacity x deque ≡ pop_front deque ++ x ∷ []
  appended-full capacity x deque e =
      let full : (length deque == capacity) ≡ true = ground arith in rw full refl

  appended-room :
      (capacity : ℕ) (x : List F) (deque : List (List F))
      → length deque < capacity
      → appended capacity x deque ≡ deque ++ x ∷ []
  appended-room capacity x deque h =
      let room : (length deque == capacity) ≡ false = ground arith in rw room refl

  appended-latest :
      (capacity : ℕ) (xs : List (List F)) (x : List F)
      → 0 < capacity
      → appended capacity x (drop (length xs - capacity) xs)
        ≡ drop (length xs + 1 - capacity) (xs ++ x ∷ [])
  appended-latest capacity xs x h = elim (Bool-cases (leb capacity (length xs))) [
    | inl full ↦
        let enough : capacity ≤ length xs = leb→le _ _ full in
        appended-full capacity x _ (omega (arith, length-drop (length xs - capacity) xs))
        ∙ pop-latest capacity xs x h enough
    | inr short ↦
        let room : length xs < capacity = ground arith in
        ap (appended capacity x) (drop-same (length xs - capacity) 0 xs (omega arith))
        ∙ appended-room capacity x xs room
        ∙ drop-same 0 (length xs + 1 - capacity) (xs ++ x ∷ []) (omega arith)
  ]

  filled-capacity :
      (capacity : ℕ) (pushes : List (ℕ × List F)) → (filled capacity pushes).capacity ≡ capacity
  unfolding filled push new
  filled-capacity capacity [] = refl
  filled-capacity capacity (p ∷ older) = filled-capacity capacity older

  get_window-push :
      (pid q : ℕ) (x : List F) (w : SlidingWindow F)
      → get_window pid (push q x w) ≡ (
          if q == pid
          then some (appended w.capacity x (or_empty (get_window q w)))
          else get_window pid w)
  unfolding get_window push
  get_window-push pid q x w = lookup-insert q pid _ w.windows

  get_window-new : (pid capacity : ℕ) → get_window pid (new {F = F} capacity) ≡ none
  unfolding get_window new lookup
  get_window-new pid capacity = refl

  pushed-latest :
      (pid capacity : ℕ) (x : List F) (older : List (ℕ × List F))
      → 0 < capacity
      → get_window pid (filled capacity older) ≡ latest capacity (samples pid older)
      → appended
          (filled capacity older).capacity
          x
          (or_empty (get_window pid (filled capacity older)))
        ≡ drop (length (samples pid older) + 1 - capacity) (samples pid older ++ x ∷ [])
  unfolding get_window
  pushed-latest pid capacity x older h ih =
      rw (filled-capacity capacity older, ih, or_empty-latest capacity (samples pid older))
        (appended-latest capacity (samples pid older) x h)

  -- With a positive capacity the window of a process holds its last `capacity` samples, the oldest
  -- first, whatever the samples of other processes between them; a process without samples has no
  -- window.
  pub filled-latest :
      (pid capacity : ℕ) (pushes : List (ℕ × List F))
      → 0 < capacity
      → get_window pid (filled capacity pushes) ≡ latest capacity (samples pid pushes)
  unfolding filled
  filled-latest pid capacity [] h = get_window-new pid capacity
  filled-latest pid capacity ((q, x) ∷ older) h =
      get_window-push pid q x (filled capacity older) ∙ elim (Bool-cases (q == pid)) [
        | inl same ↦
            rw (same, (==_iff q pid).0 same)
              (ap some (pushed-latest pid capacity x older h (filled-latest pid capacity older h))
                ∙ sym (latest-append capacity (samples pid older) x))
        | inr other ↦ rw other (filled-latest pid capacity older h)
      ]

  lookup-retain :
      (pid : ℕ) (alive : List ℕ) (windows : Map ℕ (List (List F)))
      → lookup pid (retain alive windows)
        ≡ (if contains pid alive then lookup pid windows else none)
  unfolding lookup retain
  lookup-retain pid alive [] = ground arith
  lookup-retain pid alive ((q, deque) ∷ windows) = elim (Bool-cases (q == pid)) [
    | inl same ↦ rw (same, (==_iff q pid).0 same) (ground (arith, lookup-retain pid alive windows))
    | inr other ↦ rw other (ground (arith, lookup-retain pid alive windows))
  ]

  -- After `cleanup` a process has the window that it had when it is alive, and none when it is not.
  pub get_window-cleanup :
      (pid : ℕ) (alive : List ℕ) (w : SlidingWindow F)
      → get_window pid (cleanup alive w) ≡ (if contains pid alive then get_window pid w else none)
  unfolding get_window cleanup
  get_window-cleanup pid alive w = lookup-retain pid alive w.windows
