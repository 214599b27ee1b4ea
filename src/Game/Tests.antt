-- ===== src/Game/Tests.antt =====
-- Concrete points and achievements of crates/aether-gamification/src.
use aether_terminal.Prelude.{
  ℕ, zero, suc, refl, ◌&&◌, ◌+◌, ◌-◌, ◌≤◌, ◌<◌, ◌≡◌, ◌≢◌, Bool, true, ◌||◌, some, List, [], ◌∷◌,
  leb, ltb, arith,
}
use aether_terminal.Game.Xp.{
  Uptime, Rank, Severity, XpTracker, new, threshold, from_xp, xp_to_next, tick,
}
use aether_terminal.Game.Xp.Ranks.{from_xp-highest, xp_to_next-exact}
use aether_terminal.Game.Xp.Ledger.{
  Call, calls_from, IsBalanced, calls-IsBalanced, minutes_off, minutes_later, tick-ends,
}
use aether_terminal.Game.Achievements
use aether_terminal.Game.Achievements.{GameState, check, is_unlocked}
use aether_terminal.Game.Achievements.Unlock.{goals, listed, reached, is_unlocked-check}

operator_reached : threshold Rank.operator ≤ 600
unfolding threshold
operator_reached = omega arith

from_xp-highest_example :
    (threshold (from_xp 600) ≤ 600) × (threshold Rank.operator ≤ threshold (from_xp 600))
from_xp-highest_example = from_xp-highest 600 Rank.operator operator_reached

not_last : from_xp 600 ≢ Rank.aether_lord
unfolding from_xp
not_last e = cc

points_missing : 1399 < xp_to_next 600
unfolding xp_to_next threshold
points_missing = omega arith

xp_to_next-exact_example :
    (from_xp (600 + 1399) ≡ from_xp 600)
    × (from_xp (600 + xp_to_next 600) ≢ from_xp 600)
    × (threshold (from_xp (600 + xp_to_next 600)) ≡ 600 + xp_to_next 600)
xp_to_next-exact_example = xp_to_next-exact 600 1399 not_last points_missing

-- Seconds as whole numbers.
abbrev whole_seconds : Uptime
whole_seconds = record {
  Seconds = ℕ;
  nothing = 0;
  plus = ◌+◌;
  minute_passed = λ x. leb 60 x;
  less_minute = λ x. x - 60;
}

abbrev some_calls : List (Call whole_seconds)
some_calls =
    Call.add 120 "test"
    ∷ Call.drain
    ∷ Call.diagnostic_resolved Severity.critical
    ∷ Call.ticked 5 130
    ∷ []

calls-IsBalanced_example :
    IsBalanced whole_seconds (calls_from whole_seconds (new whole_seconds, []) some_calls)
calls-IsBalanced_example = calls-IsBalanced whole_seconds some_calls

abbrev long_uptime : XpTracker whole_seconds
long_uptime = record { total_xp = 0; pending_events = []; uptime_accumulator = 100 }

minute_in : (j : ℕ) → j < 2 → leb 60 (minutes_off whole_seconds j 130) ≡ true
minute_in zero h = refl
minute_in (suc zero) h = refl
minute_in (suc (suc j)) h = absurd (omega arith)

tick-ends_example :
    tick whole_seconds 3 30 long_uptime
    ≡ some (minutes_later whole_seconds 2 (record long_uptime { uptime_accumulator = 130 }))
tick-ends_example =
    tick-ends whole_seconds 2 3 30 long_uptime (omega arith) minute_in refl (omega arith)

abbrev one_kill : GameState ℕ
one_kill = record {
  kills = 1;
  uptime_hours = 0;
  zombie_kills = 0;
  arbiter_approvals = 0;
  dpi_analyses = 0;
  diagnostic_resolved_count = 0;
  critical_resolved_count = 0;
  time_without_critical = 0;
}

abbrev over_24 : ℕ → Bool
over_24 hours = ltb 24 hours

abbrev fresh : Achievements.AchievementTracker
fresh = Achievements.new

is_unlocked-check_example : is_unlocked "first_blood" (check over_24 one_kill fresh).0 ≡ (
    is_unlocked "first_blood" fresh
    || (listed "first_blood" fresh.definitions && reached "first_blood" (goals over_24 one_kill)))
is_unlocked-check_example = is_unlocked-check over_24 one_kill "first_blood" fresh
