-- ===== src/Core/Metrics/Tests.antt =====
-- Runs of a time series.
use aether_terminal.Prelude.{ℕ, ◌≡◌, refl, [], ◌∷◌, arith}
use aether_terminal.Core.Metrics.{MetricSample, TimeSeries, new, push_all}
use aether_terminal.Core.Metrics.Ring.{IsBounded, recent, push_all-recent}

abbrev at : ℕ → MetricSample
at t = record { timestamp = t; value = 0 }

abbrev two : TimeSeries
two = record { name = "cpu"; labels = []; samples = at 1 ∷ []; capacity = 2 }

two-IsBounded : IsBounded two
unfolding IsBounded
two-IsBounded = omega arith

push_all-recent_example :
    (push_all (at 2 ∷ at 3 ∷ at 4 ∷ []) two).samples ≡ recent 2 (at 1 ∷ at 2 ∷ at 3 ∷ at 4 ∷ [])
push_all-recent_example = push_all-recent (at 2 ∷ at 3 ∷ at 4 ∷ []) two two-IsBounded

recent_two : recent 2 (at 1 ∷ at 2 ∷ at 3 ∷ at 4 ∷ []) ≡ at 3 ∷ at 4 ∷ []
recent_two = refl

-- A series of capacity zero keeps the sample pushed last.
capacity_zero : (push_all (at 1 ∷ at 2 ∷ []) (new "cpu" 0)).samples ≡ at 2 ∷ []
unfolding push_all new
capacity_zero = refl
