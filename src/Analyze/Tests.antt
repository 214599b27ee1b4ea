-- ===== src/Analyze/Tests.antt =====
-- Concrete diagnostics of crates/aether-analyze/src/analyzers/correlator.rs.
use aether_terminal.Prelude.{ℕ, ◌*◌, ◌≡◌, refl, some, List, [], ◌∷◌, f64_le}
use aether_terminal.Analyze.Correlator.{
  Diagnostic, DiagTarget, DiagCategory, memory_leak, latency_high, disk_io_heavy, cpu_spike,
  pattern, causal_confidence, find_causal_pattern, correlate, enumerate, within_time_window,
  first_pattern, causal, causal_inner, compound, temporal, collect, confident,
}
use aether_terminal.Analyze.Correlator.Groups.{grouped}
use aether_terminal.Analyze.Correlator.Sound.{AllSound}
use aether_terminal.Analyze.Correlator.Members.{correlate-AllSound}
use aether_terminal.Analyze.Correlator.Spaced.{IsSpaced, correlate-IsSpaced}

abbrev at_second : ℕ → DiagCategory → Diagnostic
at_second t category = record {
  target = DiagTarget.host "h";
  category = category;
  detected_at = t * 1_000_000_000;
}

abbrev slow_host : List Diagnostic
slow_host =
    at_second 0 latency_high
    ∷ at_second 5 memory_leak
    ∷ at_second 9 disk_io_heavy
    ∷ at_second 500 cpu_spike
    ∷ []

-- The first diagnostic leads two causal groups.
correlate-slow :
    correlate slow_host
    ≡ record {
      diagnostics = 0 ∷ 1 ∷ [];
      root_cause = some (pattern "memory leak likely causing GC pauses and latency increase");
      confidence = causal_confidence;
    }
      ∷ record {
        diagnostics = 0 ∷ 2 ∷ [];
        root_cause = some (pattern "heavy disk I/O causing latency increase");
        confidence = causal_confidence;
      }
      ∷ []
unfolding correlate causal causal_inner find_causal_pattern first_pattern within_time_window
    compound temporal collect confident f64_le
correlate-slow = refl

correlate-IsSpaced_example : IsSpaced (λ k. grouped k (correlate slow_host)) (enumerate 0 slow_host)
correlate-IsSpaced_example = correlate-IsSpaced slow_host

correlate-AllSound_example : AllSound slow_host (correlate slow_host)
correlate-AllSound_example = correlate-AllSound slow_host
