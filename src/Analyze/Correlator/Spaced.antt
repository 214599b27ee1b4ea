-- ===== src/Analyze/Correlator/Spaced.antt =====
-- What crates/aether-analyze/src/analyzers/correlator.rs leaves ungrouped.
use aether_terminal.Prelude.{
  ℕ, ◌≤◌, ◌≡◌, refl, sym, ap, ◌∙◌, Bool, true, false, not, ◌||◌, Option, none, List, [], ◌∷◌, leb,
  ltb, length, if◌then◌else◌, arith, Bool-cases, inl, inr, F64, suc,
}
use aether_terminal.Analyze.Correlator.{
  Diagnostic, RootCause, within_time_window, Indexed, Correlation, mark_all, collect, grouped_with,
  temporal_confidence, temporal, compound, causal, unused, enumerate, correlate,
}
use aether_terminal.Analyze.Correlator.Groups.{
  grouped, mark_all-member, strategies-IsMarked, confident-AllConfident,
}
use aether_terminal.Analyze.Correlator.Near.{are_near, within_time_window-near}

-- For each later diagnostic that was detected at most 60 s from the first one, it or the first
-- one is chosen.
abbrev pub IsApart : (ℕ → Bool) → Indexed → List Indexed → Type 0
IsApart chosen x [] = Unit
IsApart chosen (i, a) ((j, b) ∷ later) =
    ((chosen i || chosen j || not (are_near a b)) ≡ true) × IsApart chosen (i, a) later

abbrev pub IsSpaced : (ℕ → Bool) → List Indexed → Type 0
IsSpaced chosen [] = Unit
IsSpaced chosen (x ∷ later) = IsApart chosen x later × IsSpaced chosen later

record Grows (u v : ℕ → Bool) : Type 0 where
  grows : (k : ℕ) → u k ≡ true → v k ≡ true

IsApart-Grows :
    {u v : ℕ → Bool} (x : Indexed) (later : List Indexed)
    → Grows u v
    → IsApart u x later
    → IsApart v x later
IsApart-Grows x [] g h = tt
IsApart-Grows {u} {v} (i, a) ((j, b) ∷ later) g h =
    (either _ _ _ _ _ (g.grows i) (g.grows j) h.0, IsApart-Grows (i, a) later g h.1)
  where
    either :
        (p q r p' q' : Bool)
        → (p ≡ true → p' ≡ true)
        → (q ≡ true → q' ≡ true)
        → (p || q || r) ≡ true
        → (p' || q' || r) ≡ true
    either p q r p' q' f g h = ground arith

IsApart-first :
    (u : ℕ → Bool) (i : ℕ) (a : Diagnostic) (later : List Indexed)
    → u i ≡ true
    → IsApart u (i, a) later
IsApart-first u i a [] h = tt
IsApart-first u i a ((j, b) ∷ later) h = (ground arith, IsApart-first u i a later h)

collect-nil :
    (u : ℕ → Bool) (i : ℕ) (a : Diagnostic) (later : List Indexed)
    → collect (within_time_window a) u later ≡ []
    → IsApart u (i, a) later
unfolding collect
collect-nil u i a [] h = tt
collect-nil u i a ((j, b) ∷ later) h =
    go (u j) (within_time_window a b) refl refl (collect-nil u i a later) h
  where
    go :
        (p q : Bool)
        → u j ≡ p
        → within_time_window a b ≡ q
        → (collect (within_time_window a) u later ≡ [] → IsApart u (i, a) later)
        → (let rest = collect (within_time_window a) u later in
            if p then rest else if q then j ∷ rest else rest)
          ≡ []
        → IsApart u (i, a) ((j, b) ∷ later)
    go true q e f ih h' = (ground (arith, e), ih h')
    go false true e f ih h' = cc
    go false false e f ih h' = (ground (arith, sym (within_time_window-near a b) ∙ f), ih h')

-- One round of the third strategy.
abbrev round : ℕ → Diagnostic → List Indexed → Correlation → Correlation
round i a later s =
    if s.used i
    then s
    else grouped_with (i ∷ collect (within_time_window a) s.used later) none temporal_confidence s

grouped_with-Grows :
    (members : List ℕ) (cause : Option RootCause) (confidence : F64) (s : Correlation)
    → Grows s.used (grouped_with members cause confidence s).used
grouped_with-Grows members cause confidence s = record {
  grows = λ k h. ground (arith, mark_all-member k members s.used);
}

round-Grows :
    (i : ℕ) (a : Diagnostic) (later : List Indexed) (s : Correlation)
    → Grows s.used (round i a later s).used
round-Grows i a later s = choice (s.used i) _ (
    grouped_with-Grows (i ∷ collect (within_time_window a) s.used later) none temporal_confidence s)
  where
    choice :
        (b : Bool) (t : Correlation) → Grows s.used t.used → Grows s.used (if b then s else t).used
    choice true t g = record { grows = λ k h. h }
    choice false t g = g

grouped_with-IsApart :
    (i : ℕ) (a : Diagnostic) (later : List Indexed) (s : Correlation) (found : List ℕ)
    → (found ≡ [] → IsApart s.used (i, a) later)
    → IsApart (grouped_with (i ∷ found) none temporal_confidence s).used (i, a) later
grouped_with-IsApart i a later s [] h = h refl
grouped_with-IsApart i a later s (c ∷ cs) h =
    let big : leb 2 (suc (suc (length cs))) ≡ true = ground arith in
    rw big (
      IsApart-first (mark_all (i ∷ c ∷ cs) s.used) i a later
        (mark_all-member i (i ∷ c ∷ cs) s.used ∙ ground arith))

round-IsApart :
    (i : ℕ) (a : Diagnostic) (later : List Indexed) (s : Correlation)
    → IsApart (round i a later s).used (i, a) later
round-IsApart i a later s = elim (Bool-cases (s.used i)) [
  | inl used ↦ rw used (IsApart-first s.used i a later used)
  | inr fresh ↦ rw fresh (
      grouped_with-IsApart i a later s (collect (within_time_window a) s.used later)
        (collect-nil s.used i a later))
]

temporal-Grows : (all : List Indexed) (s : Correlation) → Grows s.used (temporal all s).used
unfolding temporal
temporal-Grows [] s = record { grows = λ k h. h }
temporal-Grows ((i, a) ∷ later) s = record {
  grows = λ k h.
      (temporal-Grows later (round i a later s)).grows k ((round-Grows i a later s).grows k h);
}

temporal-IsSpaced : (all : List Indexed) (s : Correlation) → IsSpaced (temporal all s).used all
unfolding temporal
temporal-IsSpaced [] s = tt
temporal-IsSpaced ((i, a) ∷ later) s = (
  IsApart-Grows (i, a) later (temporal-Grows later (round i a later s)) (round-IsApart i a later s),
  temporal-IsSpaced later (round i a later s),
)

IsSpaced-Grows : {u v : ℕ → Bool} (all : List Indexed) → Grows u v → IsSpaced u all → IsSpaced v all
IsSpaced-Grows [] g h = tt
IsSpaced-Grows (x ∷ later) g h = (IsApart-Grows x later g h.0, IsSpaced-Grows later g h.1)

correlate-strategies :
    (diagnostics : List Diagnostic)
    → 2 ≤ length diagnostics
    → (let all : List Indexed = enumerate 0 diagnostics in
        correlate diagnostics ≡ (temporal all (compound all (causal all unused))).groups)
unfolding correlate
correlate-strategies diagnostics h =
    let enough : ltb (length diagnostics) 2 ≡ false = ground arith in
    rw enough (confident-AllConfident _ (strategies-IsMarked (enumerate 0 diagnostics)).stays)

-- Of any two diagnostics detected at most 60 s apart, at least one is in a group.
pub correlate-IsSpaced :
    (diagnostics : List Diagnostic)
    → IsSpaced (λ k. grouped k (correlate diagnostics)) (enumerate 0 diagnostics)
correlate-IsSpaced [] = tt
correlate-IsSpaced (a ∷ []) = (tt, tt)
correlate-IsSpaced (a ∷ b ∷ diagnostics) =
    let ds : List Diagnostic = a ∷ b ∷ diagnostics in
    let all : List Indexed = enumerate 0 ds in
    let before : Correlation = compound all (causal all unused) in
    IsSpaced-Grows {u = (temporal all before).used} {v = λ k. grouped k (correlate ds)} all
      (record {
        grows = λ k h.
            ap (grouped k) (correlate-strategies ds (omega arith))
            ∙ sym ((strategies-IsMarked all).marks k)
            ∙ h;
      })
      (temporal-IsSpaced all before)
