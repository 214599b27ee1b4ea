-- ===== src/Game/Xp/Ranks.antt =====
-- The ranks of crates/aether-gamification/src/xp.rs against their thresholds.
use aether_terminal.Prelude.{ℕ, ◌+◌, ◌≤◌, ◌<◌, ◌≡◌, ◌≢◌, arith}
use aether_terminal.Game.Xp.{
  Rank, novice, operator, engineer, architect, aether_lord, threshold, from_xp, xp_to_next,
}

-- The rank of an amount of points has its threshold reached, and no rank whose threshold is
-- reached has a higher one.
pub from_xp-highest :
    (xp : ℕ) (r : Rank)
    → threshold r ≤ xp
    → (threshold (from_xp xp) ≤ xp) × (threshold r ≤ threshold (from_xp xp))
unfolding from_xp threshold
from_xp-highest xp novice h = (ground arith, ground arith)
from_xp-highest xp operator h = (ground arith, ground arith)
from_xp-highest xp engineer h = (ground arith, ground arith)
from_xp-highest xp architect h = (ground arith, ground arith)
from_xp-highest xp aether_lord h = (ground arith, ground arith)

-- Below the last rank, the rank stays for fewer points than `xp_to_next`, and after exactly
-- `xp_to_next` points it is another one, whose threshold is just reached.
pub xp_to_next-exact :
    (xp n : ℕ)
    → from_xp xp ≢ aether_lord
    → n < xp_to_next xp
    → (from_xp (xp + n) ≡ from_xp xp)
      × (from_xp (xp + xp_to_next xp) ≢ from_xp xp)
      × (threshold (from_xp (xp + xp_to_next xp)) ≡ xp + xp_to_next xp)
unfolding from_xp threshold xp_to_next
xp_to_next-exact xp n h l = (ground arith, ground arith, ground arith)
