-- ===== src/Analyze/Correlator.antt =====
-- The correlator of crates/aether-analyze/src/analyzers/correlator.rs, over the diagnostics of
-- crates/aether-core/src/models.rs. An `Instant` is a number of nanoseconds, the vector `used` a
-- function of the index, and the text of a compound issue a constructor with its target.
pub mod Groups
pub mod Near
pub mod Spaced
pub mod Sound
pub mod Members
use aether_terminal.Prelude.{
  ℕ, suc, ◌-◌, ◌*◌, String, F64, f64_le, Bool, true, false, not, ◌&&◌, ◌||◌, Option, none, some,
  List, [], ◌∷◌, ◌++◌, ◌==◌, ltb, leb, length, str_eq, if◌then◌else◌,
}

pub data DiagTarget : Type 0 where
  process : ℕ → String → DiagTarget
  host : String → DiagTarget
  container : String → String → DiagTarget
  disk : String → DiagTarget
  network : String → DiagTarget

-- The derived `PartialEq`.
abbrev pub target_eq : DiagTarget → DiagTarget → Bool
target_eq (process pid name) (process pid' name') = pid == pid' && str_eq name name'
target_eq (host id) (host id') = str_eq id id'
target_eq (container id name) (container id' name') = str_eq id id' && str_eq name name'
target_eq (disk mount) (disk mount') = str_eq mount mount'
target_eq (network interface) (network interface') = str_eq interface interface'
target_eq _ _ = false

pub data DiagCategory : Type 0 where
  memory_leak memory_pressure cpu_saturation cpu_spike disk_pressure disk_io_heavy : DiagCategory
  fd_exhaustion connection_surge zombie_accumulation thread_explosion crash_loop : DiagCategory
  config_mismatch capacity_risk correlated_anomaly script_rule throughput_drop : DiagCategory
  latency_high error_rate_high health_check_failed certificate_expiry : DiagCategory
  network_degradation : DiagCategory

-- The position of a category in the enum.
abbrev pub category_index : DiagCategory → ℕ
category_index memory_leak = 0
category_index memory_pressure = 1
category_index cpu_saturation = 2
category_index cpu_spike = 3
category_index disk_pressure = 4
category_index disk_io_heavy = 5
category_index fd_exhaustion = 6
category_index connection_surge = 7
category_index zombie_accumulation = 8
category_index thread_explosion = 9
category_index crash_loop = 10
category_index config_mismatch = 11
category_index capacity_risk = 12
category_index correlated_anomaly = 13
category_index script_rule = 14
category_index throughput_drop = 15
category_index latency_high = 16
category_index error_rate_high = 17
category_index health_check_failed = 18
category_index certificate_expiry = 19
category_index network_degradation = 20

abbrev pub category_eq : DiagCategory → DiagCategory → Bool
category_eq c d = category_index c == category_index d

-- The fields that the correlator reads.
pub record Diagnostic : Type 0 where
  pub target : DiagTarget
  pub category : DiagCategory
  pub detected_at : ℕ

pub data RootCause : Type 0 where
  pattern : String → RootCause
  multiple_issues : DiagTarget → RootCause

pub record CorrelatedGroup : Type 0 where
  pub diagnostics : List ℕ
  pub root_cause : Option RootCause
  pub confidence : F64

abbrev pub time_window : ℕ
time_window = 60 * 1_000_000_000

-- The patterns of 0.3, 0.9, 0.7 and 0.4.
abbrev pub min_confidence : F64
min_confidence = 0x3fd3333333333333

abbrev pub causal_confidence : F64
causal_confidence = 0x3feccccccccccccd

abbrev pub compound_confidence : F64
compound_confidence = 0x3fe6666666666666

abbrev pub temporal_confidence : F64
temporal_confidence = 0x3fd999999999999a

unfoldable pub within_time_window : Diagnostic → Diagnostic → Bool
within_time_window a b =
    leb
      (if leb b.detected_at a.detected_at
        then a.detected_at - b.detected_at
        else b.detected_at - a.detected_at)
      time_window

unfoldable pub same_target : Diagnostic → Diagnostic → Bool
same_target a b = target_eq a.target b.target

abbrev pub causal_patterns : List (DiagCategory × DiagCategory × String)
causal_patterns =
    (connection_surge, throughput_drop, "connection pool saturation causing throughput drop")
    ∷ (
      health_check_failed, error_rate_high,
      "service failure: health check failed with error rate spike",
    )
    ∷ (memory_leak, latency_high, "memory leak likely causing GC pauses and latency increase")
    ∷ (
      memory_pressure, cpu_saturation,
      "memory pressure causing CPU thrashing (swap or GC overhead)",
    )
    ∷ (disk_io_heavy, latency_high, "heavy disk I/O causing latency increase")
    ∷ (thread_explosion, cpu_saturation, "thread explosion causing CPU saturation")
    ∷ (fd_exhaustion, connection_surge, "file descriptor exhaustion blocking new connections")
    ∷ (
      network_degradation, error_rate_high,
      "network degradation causing downstream error rate spike",
    )
    ∷ (disk_pressure, crash_loop, "disk pressure causing application crash loop")
    ∷ []

-- The loop over the patterns.
unfoldable pub first_pattern :
    DiagCategory → DiagCategory → List (DiagCategory × DiagCategory × String) → Option String
first_pattern c d [] = none
first_pattern c d ((cat_a, cat_b, description) ∷ patterns) =
    if (category_eq c cat_a && category_eq d cat_b) || (category_eq c cat_b && category_eq d cat_a)
    then some description
    else first_pattern c d patterns

unfoldable pub find_causal_pattern : Diagnostic → Diagnostic → Option String
unfolding within_time_window
find_causal_pattern a b =
    if not (within_time_window a b)
    then none
    else first_pattern a.category b.category causal_patterns

-- A diagnostic with its index.
abbrev pub Indexed : Type 0
Indexed = ℕ × Diagnostic

pub record Correlation : Type 0 where
  pub used : ℕ → Bool
  pub groups : List CorrelatedGroup

abbrev pub mark : ℕ → (ℕ → Bool) → ℕ → Bool
mark i used k = i == k || used k

abbrev pub mark_all : List ℕ → (ℕ → Bool) → ℕ → Bool
mark_all [] used = used
mark_all (i ∷ indices) used = mark_all indices (mark i used)

abbrev pub causal_found : ℕ → ℕ → Option String → Correlation → Correlation
causal_found i j none s = s
causal_found i j (some description) s = record {
  used = mark j (mark i s.used);
  groups =
      s.groups
      ++ record {
        diagnostics = i ∷ j ∷ [];
        root_cause = some (pattern description);
        confidence = causal_confidence;
      }
        ∷ [];
}

-- The inner loop of the first strategy, over the later diagnostics; it looks at `used[j]` only.
unfoldable pub causal_inner : Indexed → List Indexed → Correlation → Correlation
causal_inner (i, a) [] s = s
causal_inner (i, a) ((j, b) ∷ later) s =
    causal_inner (i, a) later (if s.used j then s else causal_found i j (find_causal_pattern a b) s)

unfoldable pub causal : List Indexed → Correlation → Correlation
causal [] s = s
causal ((i, a) ∷ later) s = causal later (if s.used i then s else causal_inner (i, a) later s)

-- The inner loop of the other two strategies: the unused later indices that pass a test.
unfoldable pub collect : (Diagnostic → Bool) → (ℕ → Bool) → List Indexed → List ℕ
collect test used [] = []
collect test used ((j, b) ∷ later) =
    let rest = collect test used later in if used j then rest else if test b then j ∷ rest else rest

-- A group of at least two.
abbrev pub grouped_with : List ℕ → Option RootCause → F64 → Correlation → Correlation
grouped_with members cause confidence s =
    if leb 2 (length members)
    then record {
      used = mark_all members s.used;
      groups =
          s.groups
          ++ record { diagnostics = members; root_cause = cause; confidence = confidence } ∷ [];
    }
    else s

abbrev pub is_compound : Diagnostic → Diagnostic → Bool
is_compound a b =
    same_target a b && not (category_eq a.category b.category) && within_time_window a b

unfoldable pub compound : List Indexed → Correlation → Correlation
compound [] s = s
compound ((i, a) ∷ later) s = compound later (
    if s.used i
    then s
    else grouped_with (i ∷ collect (is_compound a) s.used later) (some (multiple_issues a.target))
        compound_confidence s)

unfoldable pub temporal : List Indexed → Correlation → Correlation
temporal [] s = s
temporal ((i, a) ∷ later) s = temporal later (
    if s.used i
    then s
    else grouped_with (i ∷ collect (within_time_window a) s.used later) none temporal_confidence s)

abbrev pub enumerate : ℕ → List Diagnostic → List Indexed
enumerate i [] = []
enumerate i (d ∷ diagnostics) = (i, d) ∷ enumerate (suc i) diagnostics

-- `groups.retain(…)`.
unfoldable pub confident : List CorrelatedGroup → List CorrelatedGroup
confident [] = []
confident (g ∷ groups) =
    let rest = confident groups in if f64_le min_confidence g.confidence then g ∷ rest else rest

abbrev pub unused : Correlation
unused = record { used = λ i. false; groups = [] }

unfoldable pub correlate : List Diagnostic → List CorrelatedGroup
correlate diagnostics =
    if ltb (length diagnostics) 2
    then []
    else (let all : List Indexed = enumerate 0 diagnostics in
        confident (temporal all (compound all (causal all unused))).groups)
