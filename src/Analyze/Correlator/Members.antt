-- ===== src/Analyze/Correlator/Members.antt =====
-- The groups of crates/aether-analyze/src/analyzers/correlator.rs, from the first strategy to the
-- last.
use aether_terminal.Prelude.{
  ℕ, suc, ◌+◌, ◌≡◌, refl, ap, ◌∙◌, f64_le, Bool, true, false, ◌&&◌, not, some, none, List, [], ◌∷◌,
  ltb, length, get_elem?, if◌then◌else◌, arith,
}
use aether_terminal.Analyze.Correlator.{
  Diagnostic, multiple_issues, CorrelatedGroup, compound_confidence, temporal_confidence,
  within_time_window, same_target, category_eq, find_causal_pattern, Indexed, Correlation,
  causal_inner, causal, collect, is_compound, compound, temporal, enumerate, confident, unused,
  correlate, min_confidence,
}
use aether_terminal.Analyze.Correlator.Sound.{
  AllSound, Located, Located-lower, collect-AllTogether, grouped_with-AllSound,
  causal_found-AllSound, choose-AllSound,
}

module _ (ds : List Diagnostic) where
  causal_inner-AllSound :
      (i : ℕ) (a : Diagnostic) (later : List Indexed) (s : Correlation)
      → get_elem? ds i ≡ some a
      → Located ds (suc i) later
      → AllSound ds s.groups
      → AllSound ds (causal_inner (i, a) later s).groups
  unfolding causal_inner
  causal_inner-AllSound i a [] s at l h = h
  causal_inner-AllSound i a ((j, b) ∷ later) s at l h =
      causal_inner-AllSound i a later _ at
        (Located-lower ds (suc j) (suc i) later (omega (arith, l.0)) l.2)
        (choose-AllSound ds (s.used j) s _ h (
          causal_found-AllSound ds i j a b (find_causal_pattern a b) s refl (omega (arith, l.0)) at
            l.1 h))

  causal-AllSound :
      (low : ℕ) (all : List Indexed) (s : Correlation)
      → Located ds low all
      → AllSound ds s.groups
      → AllSound ds (causal all s).groups
  unfolding causal
  causal-AllSound low [] s l h = h
  causal-AllSound low ((i, a) ∷ later) s l h =
      causal-AllSound (suc i) later _ l.2
        (choose-AllSound ds (s.used i) s _ h (causal_inner-AllSound i a later s l.1 l.2 h))

  compound-near : (a b : Diagnostic) → is_compound a b ≡ true → within_time_window a b ≡ true
  compound-near a b h =
      go (same_target a b) (not (category_eq a.category b.category)) (within_time_window a b) h
    where
      go : (p q r : Bool) → (p && q && r) ≡ true → r ≡ true
      go p q r h = ground arith

  compound-AllSound :
      (low : ℕ) (all : List Indexed) (s : Correlation)
      → Located ds low all
      → AllSound ds s.groups
      → AllSound ds (compound all s).groups
  unfolding compound
  compound-AllSound low [] s l h = h
  compound-AllSound low ((i, a) ∷ later) s l h = compound-AllSound (suc i) later _ l.2 (
      choose-AllSound ds (s.used i) s _ h (
        grouped_with-AllSound ds i (collect (is_compound a) s.used later)
          (some (multiple_issues a.target)) compound_confidence s
          (collect-AllTogether ds i a (is_compound a) s.used later l.1 (compound-near a) l.2) h))

  temporal-AllSound :
      (low : ℕ) (all : List Indexed) (s : Correlation)
      → Located ds low all
      → AllSound ds s.groups
      → AllSound ds (temporal all s).groups
  unfolding temporal
  temporal-AllSound low [] s l h = h
  temporal-AllSound low ((i, a) ∷ later) s l h = temporal-AllSound (suc i) later _ l.2 (
      choose-AllSound ds (s.used i) s _ h (
        grouped_with-AllSound ds i (collect (within_time_window a) s.used later) none
          temporal_confidence s
          (collect-AllTogether ds i a (within_time_window a) s.used later l.1 (λ b e. e) l.2) h))

  enumerate-Located :
      (m : ℕ) (rest : List Diagnostic)
      → ((k : ℕ) → get_elem? ds (m + k) ≡ get_elem? rest k)
      → Located ds m (enumerate m rest)
  enumerate-Located m [] f = tt
  enumerate-Located m (d ∷ rest) f = (
    omega arith,
    ap (get_elem? ds) (omega arith) ∙ f 0,
    enumerate-Located (suc m) rest (λ k. ap (get_elem? ds) (omega arith) ∙ f (suc k)),
  )

  confident-AllSound :
      (groups : List CorrelatedGroup) → AllSound ds groups → AllSound ds (confident groups)
  unfolding confident
  confident-AllSound [] h = tt
  confident-AllSound (g ∷ groups) h =
      go (f64_le min_confidence g.confidence) (confident-AllSound groups h.1)
    where
      go :
          (b : Bool)
          → AllSound ds (confident groups)
          → AllSound ds (let rest = confident groups in if b then g ∷ rest else rest)
      go true k = (h.0, k)
      go false k = k

  strategies-AllSound :
      AllSound ds
        (temporal
          (enumerate 0 ds)
          (compound (enumerate 0 ds) (causal (enumerate 0 ds) unused))).groups
  strategies-AllSound =
      let l : Located ds 0 (enumerate 0 ds) =
        enumerate-Located 0 ds (λ k. ap (get_elem? ds) (omega arith)) in
      temporal-AllSound 0 (enumerate 0 ds) _ l
        (compound-AllSound 0 (enumerate 0 ds) _ l (causal-AllSound 0 (enumerate 0 ds) unused l tt))

-- Every group has a first index and at least one more; each further index is larger than the first
-- one, is in range, and stands for a diagnostic detected at most 60 s from the first one's.
pub correlate-AllSound :
    (diagnostics : List Diagnostic) → AllSound diagnostics (correlate diagnostics)
unfolding correlate
correlate-AllSound diagnostics = go (ltb (length diagnostics) 2)
  where
    go :
        (b : Bool)
        → AllSound diagnostics (
            if b
            then []
            else (let all : List Indexed = enumerate 0 diagnostics in
                confident (temporal all (compound all (causal all unused))).groups))
    go true = tt
    go false = confident-AllSound diagnostics _ (strategies-AllSound diagnostics)
