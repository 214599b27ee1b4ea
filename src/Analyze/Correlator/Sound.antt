-- ===== src/Analyze/Correlator/Sound.antt =====
-- What the groups of crates/aether-analyze/src/analyzers/correlator.rs hold.
use aether_terminal.Prelude.{
  ℕ, suc, ◌≤◌, ◌<◌, ◌≡◌, refl, sym, ◌∙◌, String, F64, Bool, true, false, not, Option, none, some,
  List, [], ◌∷◌, ◌++◌, leb, length, get_elem?, if◌then◌else◌, arith,
}
use aether_terminal.Analyze.Correlator.{
  Diagnostic, RootCause, CorrelatedGroup, within_time_window, find_causal_pattern, first_pattern,
  causal_patterns, Indexed, Correlation, causal_found, collect, grouped_with,
}
use aether_terminal.Analyze.Correlator.Near.{are_near, within_time_window-near}

module _ (ds : List Diagnostic) where
  -- The second index is larger, both are in range, and their diagnostics are at most 60 s apart:
  -- neither was detected more than 60 000 000 000 ns after the other.
  pub record AreTogether (i j : ℕ) : Type 0 where
    pub earlier : Diagnostic
    pub later : Diagnostic
    pub rising : i < j
    pub at_i : get_elem? ds i ≡ some earlier
    pub at_j : get_elem? ds j ≡ some later
    pub near : are_near earlier later ≡ true

  abbrev pub AllTogether : ℕ → List ℕ → Type 0
  AllTogether i [] = Unit
  AllTogether i (j ∷ indices) = AreTogether i j × AllTogether i indices

  -- A first index and at least one more.
  abbrev pub IsSound : List ℕ → Type 0
  IsSound [] = ⊥
  IsSound (i ∷ []) = ⊥
  IsSound (i ∷ j ∷ indices) = AllTogether i (j ∷ indices)

  abbrev pub AllSound : List CorrelatedGroup → Type 0
  AllSound [] = Unit
  AllSound (g ∷ groups) = IsSound g.diagnostics × AllSound groups

  -- The indexed diagnostics are those of the list, from `low` on and in order.
  abbrev pub Located : ℕ → List Indexed → Type 0
  Located low [] = Unit
  Located low ((j, b) ∷ later) = (low ≤ j) × (get_elem? ds j ≡ some b) × Located (suc j) later

  pub Located-lower :
      (low low' : ℕ) (all : List Indexed) → low' ≤ low → Located low all → Located low' all
  Located-lower low low' [] h l = tt
  Located-lower low low' ((j, b) ∷ later) h l = (omega (arith, l.0), l.1, l.2)

  AllSound-append :
      (groups : List CorrelatedGroup) (g : CorrelatedGroup)
      → AllSound groups
      → IsSound g.diagnostics
      → AllSound (groups ++ g ∷ [])
  AllSound-append [] g h k = (k, tt)
  AllSound-append (x ∷ groups) g h k = (h.0, AllSound-append groups g h.1 k)

  pub collect-AllTogether :
      (i : ℕ) (a : Diagnostic) (test : Diagnostic → Bool) (used : ℕ → Bool) (later : List Indexed)
      → get_elem? ds i ≡ some a
      → ((b : Diagnostic) → test b ≡ true → within_time_window a b ≡ true)
      → Located (suc i) later
      → AllTogether i (collect test used later)
  unfolding collect
  collect-AllTogether i a test used [] at near l = tt
  collect-AllTogether i a test used ((j, b) ∷ later) at near l = go (used j) (test b) refl (
      collect-AllTogether i a test used later at near
        (Located-lower (suc j) (suc i) later (omega (arith, l.0)) l.2))
    where
      go :
          (p q : Bool)
          → test b ≡ q
          → AllTogether i (collect test used later)
          → AllTogether i (
              let rest = collect test used later in
              if p then rest else if q then j ∷ rest else rest)
      go true q e rest = rest
      go false false e rest = rest
      go false true e rest = (
        record {
          earlier = a;
          later = b;
          rising = omega (arith, l.0);
          at_i = at;
          at_j = l.1;
          near = sym (within_time_window-near a b) ∙ near b e;
        },
        rest,
      )

  pub grouped_with-AllSound :
      (i : ℕ) (found : List ℕ) (cause : Option RootCause) (confidence : F64) (s : Correlation)
      → AllTogether i found
      → AllSound s.groups
      → AllSound (grouped_with (i ∷ found) cause confidence s).groups
  grouped_with-AllSound i [] cause confidence s t h = h
  grouped_with-AllSound i (c ∷ cs) cause confidence s t h =
      let big : leb 2 (suc (suc (length cs))) ≡ true = ground arith in
      rw big (AllSound-append s.groups _ h t)

  find_causal_pattern-near :
      (a b : Diagnostic) (description : String)
      → find_causal_pattern a b ≡ some description
      → within_time_window a b ≡ true
  unfolding find_causal_pattern
  find_causal_pattern-near a b description h = go (within_time_window a b) h
    where
      go :
          (w : Bool)
          → (if not w then none else first_pattern a.category b.category causal_patterns)
            ≡ some description
          → w ≡ true
      go true h = refl
      go false h = cc

  pub causal_found-AllSound :
      (i j : ℕ) (a b : Diagnostic) (o : Option String) (s : Correlation)
      → find_causal_pattern a b ≡ o
      → i < j
      → get_elem? ds i ≡ some a
      → get_elem? ds j ≡ some b
      → AllSound s.groups
      → AllSound (causal_found i j o s).groups
  causal_found-AllSound i j a b none s e l p q h = h
  causal_found-AllSound i j a b (some description) s e l p q h = AllSound-append s.groups _ h (
    record {
      earlier = a;
      later = b;
      rising = l;
      at_i = p;
      at_j = q;
      near = sym (within_time_window-near a b) ∙ find_causal_pattern-near a b description e;
    },
    tt,
  )

  pub choose-AllSound :
      (b : Bool) (s t : Correlation)
      → AllSound s.groups
      → AllSound t.groups
      → AllSound (if b then s else t).groups
  choose-AllSound true s t h k = h
  choose-AllSound false s t h k = k
