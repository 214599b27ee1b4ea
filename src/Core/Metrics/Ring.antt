-- ===== src/Core/Metrics/Ring.antt =====
-- A time series keeps the most recent samples, never more than its capacity; a series of capacity
-- zero keeps one.
use aether_terminal.Prelude.{
  ℕ, suc, ◌-◌, ◌≤◌, ◌<◌, max, ◌≡◌, refl, sym, ap, ◌∙◌, if◌then◌else◌, List, [], ◌∷◌, ◌++◌,
  append_assoc, append-nil, some, length, length-append, drop, leb, arith, Bool-cases, inl, inr,
}
use aether_terminal.Core.Metrics.{
  MetricSample, TimeSeries, pop_front, push_sample, push_all, back, last,
}

-- The samples that a series of this capacity can hold.
abbrev pub room : ℕ → ℕ
room capacity = max 1 capacity

unfoldable pub IsBounded : TimeSeries → Type 0
IsBounded ts = length ts.samples ≤ room ts.capacity

-- One push on the list of samples.
pushed : ℕ → MetricSample → List MetricSample → List MetricSample
unfolding pop_front
pushed capacity x samples =
    (if leb capacity (length samples) then pop_front samples else samples) ++ x ∷ []

data Pushed (capacity : ℕ) (x : MetricSample) (s : List MetricSample) : Type 0 where
  grown : length s < capacity → pushed capacity x s ≡ s ++ x ∷ [] → Pushed capacity x s
  first : s ≡ [] → pushed capacity x s ≡ x ∷ [] → Pushed capacity x s
  shifted :
      (y : MetricSample) (t : List MetricSample)
      → s ≡ y ∷ t
      → length s ≡ room capacity
      → pushed capacity x s ≡ t ++ x ∷ []
      → Pushed capacity x s

Pushed-cases :
    (capacity : ℕ) (x : MetricSample) (s : List MetricSample)
    → length s ≤ room capacity
    → Pushed capacity x s
unfolding pushed pop_front
Pushed-cases capacity x [] h = elim (Bool-cases (leb capacity 0)) [
  | inl b ↦ first refl (rw b refl)
  | inr b ↦ grown (ground (arith, b)) (rw b refl)
]
Pushed-cases capacity x (y ∷ t) h = elim (Bool-cases (leb capacity (length (y ∷ t)))) [
  | inl b ↦ shifted y t refl (ground (arith, b, h)) (rw b refl)
  | inr b ↦ grown (ground (arith, b)) (rw b refl)
]

pub push_sample-IsBounded :
    (x : MetricSample) (ts : TimeSeries) → IsBounded ts → IsBounded (push_sample x ts)
unfolding push_sample IsBounded pushed
push_sample-IsBounded x ts h = elim (Pushed-cases ts.capacity x ts.samples h) [
  | grown l e ↦ rw e (omega (arith, length-append ts.samples (x ∷ [])))
  | first z e ↦ rw e (omega arith)
  | shifted y t z l e ↦ rw e (omega (arith, length-append t (x ∷ []), ap length z))
]

-- The last samples of a list, as many as the room for them.
abbrev pub recent : ℕ → List MetricSample → List MetricSample
recent capacity xs = drop (length xs - room capacity) xs

recent-cons :
    (capacity : ℕ) (y : MetricSample) (ys : List MetricSample)
    → room capacity ≤ length ys
    → recent capacity (y ∷ ys) ≡ recent capacity ys
recent-cons capacity y ys h =
    let e : suc (length ys) - room capacity ≡ suc (length ys - room capacity) = omega arith in
    ap (λ k. drop k (y ∷ ys)) e

recent-push :
    (capacity : ℕ) (x : MetricSample) (s xs : List MetricSample)
    → length s ≤ room capacity
    → recent capacity (pushed capacity x s ++ xs) ≡ recent capacity (s ++ x ∷ xs)
recent-push capacity x s xs h = elim (Pushed-cases capacity x s h) [
  | grown l e ↦ ap (recent capacity) (ap (λ t. t ++ xs) e ∙ append_assoc s (x ∷ []) xs)
  | first z e ↦ ap (recent capacity) (ap (λ t. t ++ xs) e ∙ ap (λ t. t ++ x ∷ xs) (sym z))
  | shifted y t z l e ↦
      let left = ap (λ u. u ++ xs) e ∙ append_assoc t (x ∷ []) xs in
      let right = ap (λ u. u ++ x ∷ xs) z in
      let long : room capacity ≤ length (t ++ x ∷ xs) =
        omega (arith, l, ap length z, length-append t (x ∷ xs)) in
      ap (recent capacity) left
      ∙ sym (recent-cons capacity y (t ++ x ∷ xs) long)
      ∙ ap (recent capacity) (sym right)
]

-- Pushing a list of samples on a series that is within its capacity leaves the most recent of all
-- its samples, as many as its capacity, or one where the capacity is zero, in their order.
pub push_all-recent :
    (xs : List MetricSample) (ts : TimeSeries)
    → IsBounded ts
    → (push_all xs ts).samples ≡ recent ts.capacity (ts.samples ++ xs)
unfolding push_all push_sample IsBounded pushed
push_all-recent [] ts h =
    let e : length (ts.samples ++ []) - room ts.capacity ≡ 0 =
      omega (arith, h, length-append ts.samples []) in
    sym (append-nil ts.samples) ∙ ap (λ k. drop k (ts.samples ++ [])) (sym e)
push_all-recent (x ∷ xs) ts h =
    push_all-recent xs (push_sample x ts) (push_sample-IsBounded x ts h)
    ∙ recent-push ts.capacity x ts.samples xs h

pub push_all-IsBounded :
    (xs : List MetricSample) (ts : TimeSeries) → IsBounded ts → IsBounded (push_all xs ts)
unfolding push_all
push_all-IsBounded [] ts h = h
push_all-IsBounded (x ∷ xs) ts h =
    push_all-IsBounded xs (push_sample x ts) (push_sample-IsBounded x ts h)

pub new-IsBounded : (ts : TimeSeries) → ts.samples ≡ [] → IsBounded ts
unfolding IsBounded
new-IsBounded ts e = rw e (omega arith)

back-append : (s : List MetricSample) (x : MetricSample) → back (s ++ x ∷ []) ≡ some x
unfolding back
back-append [] x = refl
back-append (y ∷ []) x = refl
back-append (y ∷ z ∷ s) x = back-append (z ∷ s) x

-- The latest sample is the one pushed last.
pub last-push_sample : (x : MetricSample) (ts : TimeSeries) → last (push_sample x ts) ≡ some x
unfolding last push_sample
last-push_sample x ts =
    back-append (if leb ts.capacity (length ts.samples) then pop_front ts.samples else ts.samples) x
