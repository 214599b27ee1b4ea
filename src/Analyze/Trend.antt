-- ===== src/Analyze/Trend.antt =====
-- The slope of a time series: `linear_regression` and `TrendAnalyzer::slope` of
-- `aether-analyze/src/analyzers/trend.rs`.
use aether_terminal.Prelude.{ℕ, ◌-◌, List, [], ◌∷◌, length, map, ltb, if◌then◌else◌, F64, f64_eq}
use aether_terminal.Core.Metrics.{Floats, MetricSample, TimeSeries, samples_in_window}

module _ (f : Floats) where
  -- Seconds since the first sample of the window, and the value.
  unfoldable pub points_from : ℕ → List MetricSample → List (F64 × F64)
  points_from first [] = []
  points_from first (s ∷ samples) =
      (f.secs_f64 (s.timestamp - first), s.value) ∷ points_from first samples

  unfoldable pub windowed_points : TimeSeries → ℕ → List (F64 × F64)
  unfolding samples_in_window points_from
  windowed_points series window = elim (samples_in_window window series) [
    | [] ↦ []
    | first ∷ rest ↦ points_from first.timestamp (first ∷ rest)
  ]

  -- The sums of the products of the deviations: `ss_xy`, `ss_xx` and `ss_yy`.
  unfoldable pub deviations : F64 → F64 → List (F64 × F64) → F64 × F64 × F64 → F64 × F64 × F64
  deviations x_mean y_mean [] sums = sums
  deviations x_mean y_mean ((x, y) ∷ points) (ss_xy, ss_xx, ss_yy) =
      let dx = f.sub x x_mean in
      let dy = f.sub y y_mean in
      deviations x_mean y_mean points
        (f.add ss_xy (f.mul dx dy), f.add ss_xx (f.mul dx dx), f.add ss_yy (f.mul dy dy))

  -- The end of `linear_regression`, from the means and the sums.
  unfoldable pub regression_of : F64 → F64 → F64 × F64 × F64 → F64 × F64 × F64
  regression_of x_mean y_mean (ss_xy, ss_xx, ss_yy) =
      if f64_eq ss_xx f.zero
      then (f.zero, y_mean, f.zero)
      else (let slope = f.div ss_xy ss_xx in
          (
            slope,
            f.sub y_mean (f.mul slope x_mean),
            (if f64_eq ss_yy f.zero then f.one else f.div (f.mul ss_xy ss_xy) (f.mul ss_xx ss_yy)),
          ))

  -- The slope, the intercept and the coefficient of determination.
  unfoldable pub linear_regression : List (F64 × F64) → F64 × F64 × F64
  unfolding deviations regression_of
  linear_regression points =
      if ltb (length points) 2
      then (f.zero, f.zero, f.zero)
      else (let n = f.of_nat (length points) in
          let x_mean = f.div (f.sum (map (λ p. p.0) points)) n in
          let y_mean = f.div (f.sum (map (λ p. p.1) points)) n in
          regression_of x_mean y_mean (deviations x_mean y_mean points (f.zero, f.zero, f.zero)))

  unfoldable pub slope : TimeSeries → ℕ → F64
  unfolding windowed_points linear_regression
  slope series window = (linear_regression (windowed_points series window)).0
