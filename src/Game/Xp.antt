-- ===== src/Game/Xp.antt =====
-- Experience points and ranks, crates/aether-gamification/src/xp.rs. The sum of a `u32` wraps, as
-- it does in a release build. The `f32` of the uptime is a parameter.
pub mod Ranks
pub mod Ledger
use aether_terminal.Prelude.{
  ℕ, zero, suc, ◌+◌, ◌-◌, ◌%◌, Bool, true, false, String, Option, none, some, List, [], ◌∷◌, ◌++◌,
  leb, if◌then◌else◌,
}
use aether_terminal.Game.Events.{GameEvent, xp_earned}

pub data Rank : Type 0 where
  novice operator engineer architect aether_lord : Rank

unfoldable pub threshold : Rank → ℕ
threshold novice = 0
threshold operator = 100
threshold engineer = 500
threshold architect = 2000
threshold aether_lord = 10000

unfoldable pub from_xp : ℕ → Rank
from_xp xp =
    if leb 10000 xp
    then aether_lord
    else if leb 2000 xp
    then architect
    else if leb 500 xp
    then engineer
    else if leb 100 xp
    then operator
    else novice

abbrev pub u32_mod : ℕ
u32_mod = 0x100000000

-- `Seconds` is the type of the uptime: `f32` with `+`, `>= 60.0` and `-= 60.0`.
pub record Uptime : Type 1 where
  pub Seconds : Type 0
  pub nothing : Seconds
  pub plus : Seconds → Seconds → Seconds
  pub minute_passed : Seconds → Bool
  pub less_minute : Seconds → Seconds

pub data Severity : Type 0 where
  info warning critical : Severity

abbrev pub next_threshold : Rank → Option ℕ
next_threshold novice = some (threshold operator)
next_threshold operator = some (threshold engineer)
next_threshold engineer = some (threshold architect)
next_threshold architect = some (threshold aether_lord)
next_threshold aether_lord = none

-- `saturating_sub`; 0 at the last rank.
abbrev pub remaining : Option ℕ → ℕ → ℕ
remaining none total = 0
remaining (some next) total = next - total

unfoldable pub xp_to_next : ℕ → ℕ
unfolding from_xp
xp_to_next total = remaining (next_threshold (from_xp total)) total

module _ (up : Uptime) where
  open up use {Seconds, nothing, plus, minute_passed, less_minute}

  pub record XpTracker : Type 0 where
    pub total_xp : ℕ
    pub pending_events : List GameEvent
    pub uptime_accumulator : Seconds

  unfoldable pub new : XpTracker
  new = record { total_xp = 0; pending_events = []; uptime_accumulator = nothing }

  unfoldable pub add_xp : ℕ → String → XpTracker → XpTracker
  add_xp amount reason t = record t {
    total_xp = (t.total_xp + amount) % u32_mod;
    pending_events = t.pending_events ++ xp_earned amount reason ∷ [];
  }

  unfoldable pub current_rank : XpTracker → Rank
  current_rank t = from_xp t.total_xp

  unfoldable pub xp_to_next_rank : XpTracker → ℕ
  xp_to_next_rank t = xp_to_next t.total_xp

  -- The loop of `tick`; `none` means that the rounds ran out.
  unfoldable pub tick_loop : ℕ → XpTracker → Option XpTracker
  tick_loop zero t = none
  tick_loop (suc n) t = elim (minute_passed t.uptime_accumulator) [
    | true ↦
        tick_loop n
          (add_xp 1 "uptime" (record t { uptime_accumulator = less_minute t.uptime_accumulator }))
    | false ↦ some t
  ]

  unfoldable pub tick : ℕ → Seconds → XpTracker → Option XpTracker
  tick rounds dt t =
      tick_loop rounds (record t { uptime_accumulator = plus t.uptime_accumulator dt })

  unfoldable pub on_action_approved : XpTracker → XpTracker
  on_action_approved t = add_xp 50 "action approved" t

  unfoldable pub on_zombie_killed : XpTracker → XpTracker
  on_zombie_killed t = add_xp 10 "zombie killed" t

  abbrev pub reward : Severity → ℕ
  reward critical = 50
  reward warning = 20
  reward info = 5

  unfoldable pub reward_diagnostic_resolved : Severity → XpTracker → XpTracker
  reward_diagnostic_resolved severity t = add_xp (reward severity) "diagnostic resolved" t

  unfoldable pub drain_events : XpTracker → XpTracker × List GameEvent
  drain_events t = (record t { pending_events = [] }, t.pending_events)
