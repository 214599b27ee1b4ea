-- ===== src/Core/Metrics.antt =====
-- `TimeSeries` of `aether-core/src/metrics.rs`. A point in time is a number of nanoseconds. The
-- arithmetic of `f64`, which the code takes from the machine, is a parameter.
pub mod Ring
pub mod Numbers
mod Tests
use aether_terminal.Prelude.{
  ℕ, zero, suc, ◌+◌, ◌-◌, ◌≡◌, Bool, true, false, not, ◌&&◌, if◌then◌else◌, List, [], ◌∷◌, ◌++◌,
  length, ltb, leb, ◌==◌, String, Option, none, some, map, F64, f64_le,
}
use aether_terminal.Prelude.Map.{Map}

-- What the code takes from `f64`: its operations, `as` conversions, the sum of an iterator, and
-- `Duration::as_secs_f64`.
pub record Floats : Type 0 where
  pub sub : F64 → F64 → F64
  pub add : F64 → F64 → F64
  pub mul : F64 → F64 → F64
  pub div : F64 → F64 → F64
  pub abs : F64 → F64
  pub sum : List F64 → F64
  pub of_nat : ℕ → F64
  pub to_u64 : F64 → ℕ
  pub of_f32 : ℕ → F64
  pub secs_f64 : ℕ → F64
  pub zero : F64
  pub one : F64
  pub hundred : F64
  pub epsilon : F64
  pub infinity : F64
  pub neg_infinity : F64

-- `<` of IEEE 754.
unfoldable pub f64_lt : F64 → F64 → Bool
f64_lt x y = f64_le x y && not (f64_le y x)

abbrev pub HostId : Type 0
HostId = String

pub record MetricSample : Type 0 where
  pub timestamp : ℕ
  pub value : F64

pub record TimeSeries : Type 0 where
  pub name : String
  pub labels : Map String String
  pub samples : List MetricSample
  pub capacity : ℕ

unfoldable pub new : String → ℕ → TimeSeries
new name capacity = record { name = name; labels = []; samples = []; capacity = capacity }

unfoldable pub pop_front : List MetricSample → List MetricSample
pop_front [] = []
pop_front (s ∷ samples) = samples

unfoldable pub push_sample : MetricSample → TimeSeries → TimeSeries
unfolding pop_front
push_sample sample ts =
    let kept = if leb ts.capacity (length ts.samples) then pop_front ts.samples else ts.samples in
    record ts { samples = kept ++ sample ∷ [] }

-- A loop of `push_sample`.
unfoldable pub push_all : List MetricSample → TimeSeries → TimeSeries
unfolding push_sample
push_all [] ts = ts
push_all (s ∷ samples) ts = push_all samples (push_sample s ts)

-- `push`, with the reading of the clock.
unfoldable pub push : ℕ → F64 → TimeSeries → TimeSeries
unfolding push_sample
push now value ts = push_sample (record { timestamp = now; value = value }) ts

unfoldable pub back : List MetricSample → Option MetricSample
back [] = none
back (s ∷ []) = some s
back (s ∷ t ∷ samples) = back (t ∷ samples)

unfoldable pub last : TimeSeries → Option MetricSample
unfolding back
last ts = back ts.samples

-- `timestamp >= cutoff`, where the cutoff is `window` before the latest sample.
unfoldable pub since : ℕ → ℕ → List MetricSample → List MetricSample
since latest window [] = []
since latest window (s ∷ samples) =
    let rest = since latest window samples in
    if leb latest (s.timestamp + window) then s ∷ rest else rest

unfoldable pub samples_in_window : ℕ → TimeSeries → List MetricSample
unfolding back since
samples_in_window window ts = elim (back ts.samples) [
  | none ↦ []
  | some latest ↦ since latest.timestamp window ts.samples
]

unfoldable pub min_max_loop : F64 → F64 → List MetricSample → F64 × F64
unfolding f64_lt
min_max_loop low high [] = (low, high)
min_max_loop low high (s ∷ samples) =
    min_max_loop (if f64_lt s.value low then s.value else low)
      (if f64_lt high s.value then s.value else high) samples

module _ (f : Floats) where
  -- `(last - first) / elapsed`, for at least two samples; `duration_since` stops at zero.
  unfoldable pub rate_of : MetricSample → MetricSample → Option F64
  rate_of first last =
      let elapsed = f.secs_f64 (last.timestamp - first.timestamp) in
      if f64_le elapsed f.zero then none else some (f.div (f.sub last.value first.value) elapsed)

  unfoldable pub rate : ℕ → TimeSeries → Option F64
  unfolding samples_in_window back rate_of
  rate window ts = elim (samples_in_window window ts) [
    | [] ↦ none
    | first ∷ rest ↦ elim (back rest) [ none ↦ none | some final ↦ rate_of first final ]
  ]

  unfoldable pub avg : ℕ → TimeSeries → F64
  unfolding samples_in_window
  avg window ts = elim (samples_in_window window ts) [
    | [] ↦ f.zero
    | first ∷ rest ↦
        f.div (f.sum (map (λ s. s.value) (first ∷ rest))) (f.of_nat (length (first ∷ rest)))
  ]

  unfoldable pub min_max : ℕ → TimeSeries → F64 × F64
  unfolding samples_in_window min_max_loop
  min_max window ts = elim (samples_in_window window ts) [
    | [] ↦ (f.zero, f.zero)
    | first ∷ rest ↦ min_max_loop f.infinity f.neg_infinity (first ∷ rest)
  ]
