-- ===== src/Analyze/Correlator/Near.antt =====
-- The time window of crates/aether-analyze/src/analyzers/correlator.rs, without a subtraction.
use aether_terminal.Prelude.{◌+◌, ◌≡◌, Bool, ◌&&◌, leb, arith}
use aether_terminal.Analyze.Correlator.{Diagnostic, within_time_window}

-- Detected at most 60 s apart, in nanoseconds.
unfoldable pub are_near : Diagnostic → Diagnostic → Bool
are_near a b =
    leb a.detected_at (b.detected_at + 60_000_000_000)
    && leb b.detected_at (a.detected_at + 60_000_000_000)

pub within_time_window-near : (a b : Diagnostic) → within_time_window a b ≡ are_near a b
unfolding within_time_window are_near
within_time_window-near a b = ground arith
