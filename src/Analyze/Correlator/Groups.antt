-- ===== src/Analyze/Correlator/Groups.antt =====
-- The groups of crates/aether-analyze/src/analyzers/correlator.rs: which indices are in one.
use aether_terminal.Prelude.{
  ℕ, ◌≡◌, refl, ap, String, F64, f64_le, Bool, true, false, not, ◌&&◌, ◌||◌, Option, none, some,
  List, [], ◌∷◌, ◌++◌, ◌==◌, leb, length, if◌then◌else◌, arith,
}
use aether_terminal.Analyze.Correlator.{
  Diagnostic, RootCause, pattern, multiple_issues, CorrelatedGroup, category_eq, causal_patterns,
  min_confidence, causal_confidence, compound_confidence, temporal_confidence, within_time_window,
  DiagCategory, first_pattern, find_causal_pattern, Indexed, Correlation, mark, mark_all,
  causal_found, causal_inner, causal, collect, grouped_with, is_compound, compound, temporal,
  confident, unused,
}

abbrev pub member : ℕ → List ℕ → Bool
member k [] = false
member k (i ∷ indices) = i == k || member k indices

-- The index is in one of the groups.
abbrev pub grouped : ℕ → List CorrelatedGroup → Bool
grouped k [] = false
grouped k (g ∷ groups) = member k g.diagnostics || grouped k groups

grouped-append :
    (k : ℕ) (groups : List CorrelatedGroup) (g : CorrelatedGroup)
    → grouped k (groups ++ g ∷ []) ≡ (member k g.diagnostics || grouped k groups)
grouped-append k [] g = refl
grouped-append k (h ∷ groups) g = ground (arith, grouped-append k groups g)

pub mark_all-member :
    (k : ℕ) (indices : List ℕ) (used : ℕ → Bool)
    → mark_all indices used k ≡ (member k indices || used k)
mark_all-member k [] used = refl
mark_all-member k (i ∷ indices) used = ground (arith, mark_all-member k indices (mark i used))

abbrev pub AllConfident : List CorrelatedGroup → Type 0
AllConfident [] = Unit
AllConfident (g ∷ groups) = (f64_le min_confidence g.confidence ≡ true) × AllConfident groups

AllConfident-append :
    (groups : List CorrelatedGroup) (g : CorrelatedGroup)
    → AllConfident groups
    → f64_le min_confidence g.confidence ≡ true
    → AllConfident (groups ++ g ∷ [])
AllConfident-append [] g h c = (c, tt)
AllConfident-append (x ∷ groups) g h c = (h.0, AllConfident-append groups g h.1 c)

pub confident-AllConfident :
    (groups : List CorrelatedGroup) → AllConfident groups → confident groups ≡ groups
unfolding confident
confident-AllConfident [] h = refl
confident-AllConfident (g ∷ groups) h = rw (h.0, confident-AllConfident groups h.1) refl

-- The marks are the members of the groups, and every group is confident enough to stay.
pub record IsMarked (s : Correlation) : Type 0 where
  pub marks : (k : ℕ) → s.used k ≡ grouped k s.groups
  pub stays : AllConfident s.groups

unused-IsMarked : IsMarked unused
unused-IsMarked = record { marks = λ k. refl; stays = tt }

causal_found-IsMarked :
    (i j : ℕ) (o : Option String) (s : Correlation) → IsMarked s → IsMarked (causal_found i j o s)
unfolding f64_le
causal_found-IsMarked i j none s h = h
causal_found-IsMarked i j (some description) s h = record {
  marks = λ k. ground (
    arith,
    h.marks k,
    grouped-append k s.groups (record {
      diagnostics = i ∷ j ∷ [];
      root_cause = some (pattern description);
      confidence = causal_confidence;
    }),
  );
  stays = AllConfident-append s.groups _ h.stays refl;
}

grouped_with-IsMarked :
    (members : List ℕ) (cause : Option RootCause) (confidence : F64) (s : Correlation)
    → f64_le min_confidence confidence ≡ true
    → IsMarked s
    → IsMarked (grouped_with members cause confidence s)
grouped_with-IsMarked members cause confidence s c h = by_size (leb 2 (length members))
  where
    group : CorrelatedGroup
    group = record { diagnostics = members; root_cause = cause; confidence = confidence }

    by_size :
        (b : Bool)
        → IsMarked (
            if b
            then record { used = mark_all members s.used; groups = s.groups ++ group ∷ [] }
            else s)
    by_size true = record {
      marks = λ k.
          ground
            (arith, h.marks k, mark_all-member k members s.used, grouped-append k s.groups group);
      stays = AllConfident-append s.groups group h.stays c;
    }
    by_size false = h

-- A strategy keeps what holds when the diagnostic is used, and else what its step keeps.
unless_used :
    (b : Bool) (s t : Correlation) → IsMarked s → IsMarked t → IsMarked (if b then s else t)
unless_used true s t h k = h
unless_used false s t h k = k

causal_inner-IsMarked :
    (x : Indexed) (later : List Indexed) (s : Correlation)
    → IsMarked s
    → IsMarked (causal_inner x later s)
unfolding causal_inner
causal_inner-IsMarked x [] s h = h
causal_inner-IsMarked (i, a) ((j, b) ∷ later) s h =
    causal_inner-IsMarked (i, a) later _
      (unless_used (s.used j) s _ h (causal_found-IsMarked i j (find_causal_pattern a b) s h))

causal-IsMarked : (all : List Indexed) (s : Correlation) → IsMarked s → IsMarked (causal all s)
unfolding causal
causal-IsMarked [] s h = h
causal-IsMarked ((i, a) ∷ later) s h =
    causal-IsMarked later _ (unless_used (s.used i) s _ h (causal_inner-IsMarked (i, a) later s h))

compound-IsMarked : (all : List Indexed) (s : Correlation) → IsMarked s → IsMarked (compound all s)
unfolding compound f64_le
compound-IsMarked [] s h = h
compound-IsMarked ((i, a) ∷ later) s h = compound-IsMarked later _ (
    unless_used (s.used i) s _ h (
      grouped_with-IsMarked (i ∷ collect (is_compound a) s.used later)
        (some (multiple_issues a.target)) compound_confidence s refl h))

temporal-IsMarked : (all : List Indexed) (s : Correlation) → IsMarked s → IsMarked (temporal all s)
unfolding temporal f64_le
temporal-IsMarked [] s h = h
temporal-IsMarked ((i, a) ∷ later) s h = temporal-IsMarked later _ (
    unless_used (s.used i) s _ h (
      grouped_with-IsMarked (i ∷ collect (within_time_window a) s.used later) none
        temporal_confidence s refl h))

pub strategies-IsMarked :
    (all : List Indexed) → IsMarked (temporal all (compound all (causal all unused)))
strategies-IsMarked all =
    temporal-IsMarked all _ (compound-IsMarked all _ (causal-IsMarked all unused unused-IsMarked))

within_time_window_comm : (a b : Diagnostic) → within_time_window a b ≡ within_time_window b a
unfolding within_time_window
within_time_window_comm a b = ground arith

same_choice :
    {A : Type 0} (b b' : Bool) (x y y' : A)
    → b ≡ b'
    → y ≡ y'
    → (if b then x else y) ≡ (if b' then x else y')
same_choice b b' x y y' e f = rw (e, f) refl

pair_comm : (p q r s : Bool) → ((p && q) || (r && s)) ≡ ((s && r) || (q && p))
pair_comm p q r s = ground arith

first_pattern_comm :
    (c d : DiagCategory) (patterns : List (DiagCategory × DiagCategory × String))
    → first_pattern c d patterns ≡ first_pattern d c patterns
unfolding first_pattern
first_pattern_comm c d [] = refl
first_pattern_comm c d ((cat_a, cat_b, description) ∷ patterns) =
    same_choice _ _ (some description) _ _
      (pair_comm (category_eq c cat_a) (category_eq d cat_b) (category_eq c cat_b)
        (category_eq d cat_a))
      (first_pattern_comm c d patterns)

-- The causal pattern of two diagnostics does not depend on their order.
pub find_causal_pattern_comm :
    (a b : Diagnostic) → find_causal_pattern a b ≡ find_causal_pattern b a
unfolding find_causal_pattern
find_causal_pattern_comm a b =
    same_choice _ _ none _ _ (ap not (within_time_window_comm a b))
      (first_pattern_comm a.category b.category causal_patterns)
