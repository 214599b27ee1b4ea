-- ===== src/Game/Xp/Ledger.antt =====
-- The points of crates/aether-gamification/src/xp.rs against the events that announce them.
use aether_terminal.Prelude.{
  ℕ, zero, suc, ◌+◌, ◌%◌, ◌<◌, ◌≡◌, refl, ap, ◌∙◌, true, false, Option, none, some, List, [], ◌∷◌,
  ◌++◌, append-nil, append_assoc, arith, replicate, Bool-cases, inl, inr, String,
}
use aether_terminal.Game.Events.{GameEvent, xp_earned, achievement_unlocked}
use aether_terminal.Game.Xp.{
  Uptime, XpTracker, new, add_xp, tick_loop, tick, on_action_approved, on_zombie_killed, reward,
  reward_diagnostic_resolved, drain_events, u32_mod, Severity,
}

-- The points that a list of events announces.
abbrev pub earned : List GameEvent → ℕ
earned [] = 0
earned (xp_earned amount reason ∷ events) = amount + earned events
earned (achievement_unlocked id name ∷ events) = earned events

earned-append : (xs ys : List GameEvent) → earned (xs ++ ys) ≡ earned xs + earned ys
earned-append [] ys = omega arith
earned-append (xp_earned amount reason ∷ xs) ys = omega (arith, earned-append xs ys)
earned-append (achievement_unlocked id name ∷ xs) ys = earned-append xs ys

module _ (up : Uptime) where
  open up use {Seconds, plus, minute_passed, less_minute}

  pub data Call : Type 0 where
    add : ℕ → String → Call
    action_approved zombie_killed drain : Call
    diagnostic_resolved : Severity → Call
    ticked : ℕ → Seconds → Call

  abbrev pub or_same : XpTracker up → Option (XpTracker up) → XpTracker up
  or_same t none = t
  or_same t (some t') = t'

  -- A call on the tracker, beside the events drained so far.
  unfoldable pub call : Call → XpTracker up × List GameEvent → XpTracker up × List GameEvent
  call (add amount reason) (t, out) = (add_xp up amount reason t, out)
  call action_approved (t, out) = (on_action_approved up t, out)
  call zombie_killed (t, out) = (on_zombie_killed up t, out)
  call (diagnostic_resolved severity) (t, out) = (reward_diagnostic_resolved up severity t, out)
  call (ticked rounds dt) (t, out) = (or_same t (tick up rounds dt t), out)
  call drain (t, out) = let (t', events) = drain_events up t in (t', out ++ events)

  unfoldable pub calls_from :
      XpTracker up × List GameEvent → List Call → XpTracker up × List GameEvent
  unfolding call
  calls_from s [] = s
  calls_from s (c ∷ calls) = calls_from (call c s) calls

  abbrev pub IsBalanced : XpTracker up × List GameEvent → Type 0
  IsBalanced (t, out) = t.total_xp ≡ (earned out + earned t.pending_events) % u32_mod

  add_xp-IsBalanced :
      (amount : ℕ) (reason : String) (t : XpTracker up) (out : List GameEvent)
      → IsBalanced (t, out)
      → IsBalanced (add_xp up amount reason t, out)
  unfolding add_xp
  add_xp-IsBalanced amount reason t out h =
      omega (arith, h, earned-append t.pending_events (xp_earned amount reason ∷ []))

  -- One round of `tick`.
  abbrev minute_later : XpTracker up → XpTracker up
  minute_later t =
      add_xp up 1 "uptime" (record t { uptime_accumulator = less_minute t.uptime_accumulator })

  tick_loop-passed :
      (n : ℕ) (t : XpTracker up)
      → minute_passed t.uptime_accumulator ≡ true
      → tick_loop up (suc n) t ≡ tick_loop up n (minute_later t)
  unfolding tick_loop
  tick_loop-passed n t e = rw (e, tick_loop)

  tick_loop-before :
      (n : ℕ) (t : XpTracker up)
      → minute_passed t.uptime_accumulator ≡ false
      → tick_loop up (suc n) t ≡ some t
  unfolding tick_loop
  tick_loop-before n t e = rw (e, tick_loop)

  abbrev IsBalancedAfter : Option (XpTracker up) → List GameEvent → Type 0
  IsBalancedAfter none out = Unit
  IsBalancedAfter (some t) out = IsBalanced (t, out)

  tick_loop-IsBalanced :
      (n : ℕ) (t : XpTracker up) (out : List GameEvent)
      → IsBalanced (t, out)
      → IsBalancedAfter (tick_loop up n t) out
  tick_loop-IsBalanced zero t out h = unfold tick_loop in tt
  tick_loop-IsBalanced (suc n) t out h = elim (Bool-cases (minute_passed t.uptime_accumulator)) [
    | inl passed ↦ rw (tick_loop-passed n t passed) (
        tick_loop-IsBalanced n (minute_later t) out (
          add_xp-IsBalanced 1 "uptime"
            (record t { uptime_accumulator = less_minute t.uptime_accumulator }) out h))
    | inr before ↦ rw (tick_loop-before n t before) h
  ]

  or_same-IsBalanced :
      (t : XpTracker up) (o : Option (XpTracker up)) (out : List GameEvent)
      → IsBalanced (t, out)
      → IsBalancedAfter o out
      → IsBalanced (or_same t o, out)
  or_same-IsBalanced t none out h k = h
  or_same-IsBalanced t (some t') out h k = k

  call-IsBalanced :
      (c : Call) (t : XpTracker up) (out : List GameEvent)
      → IsBalanced (t, out)
      → IsBalanced (call c (t, out))
  unfolding call on_action_approved on_zombie_killed reward_diagnostic_resolved drain_events tick
  call-IsBalanced (add amount reason) t out h = add_xp-IsBalanced amount reason t out h
  call-IsBalanced action_approved t out h = add_xp-IsBalanced 50 "action approved" t out h
  call-IsBalanced zombie_killed t out h = add_xp-IsBalanced 10 "zombie killed" t out h
  call-IsBalanced (diagnostic_resolved severity) t out h =
      add_xp-IsBalanced (reward up severity) "diagnostic resolved" t out h
  call-IsBalanced (ticked rounds dt) t out h = or_same-IsBalanced t _ out h (
      tick_loop-IsBalanced rounds (record t { uptime_accumulator = plus t.uptime_accumulator dt })
        out h)
  call-IsBalanced drain t out h = omega (arith, h, earned-append out t.pending_events)

  calls_from-IsBalanced :
      (calls : List Call) (s : XpTracker up × List GameEvent)
      → IsBalanced s
      → IsBalanced (calls_from s calls)
  unfolding calls_from
  calls_from-IsBalanced [] s h = h
  calls_from-IsBalanced (c ∷ calls) s h =
      calls_from-IsBalanced calls (call c s) (call-IsBalanced c s.0 s.1 h)

  -- After any calls on a new tracker, the total is the sum of the points that the drained and the
  -- pending events announce, modulo 2 ^ 32.
  pub calls-IsBalanced : (calls : List Call) → IsBalanced (calls_from (new up, []) calls)
  calls-IsBalanced calls = calls_from-IsBalanced calls (new up, []) (unfold new in refl)

  abbrev pub minutes_off : ℕ → Seconds → Seconds
  minutes_off zero x = x
  minutes_off (suc k) x = minutes_off k (less_minute x)

  -- The tracker after `k` minutes: their points, one event of one point for each, and the rest of
  -- the uptime.
  abbrev pub minutes_later : ℕ → XpTracker up → XpTracker up
  minutes_later k t = record {
    total_xp = (t.total_xp + k) % u32_mod;
    pending_events = t.pending_events ++ replicate k (xp_earned 1 "uptime");
    uptime_accumulator = minutes_off k t.uptime_accumulator;
  }

  minutes_later-same : (t : XpTracker up) → t.total_xp < u32_mod → some t ≡ some (minutes_later 0 t)
  minutes_later-same t h = rw (small, append-nil t.pending_events) refl
    where
      small : (t.total_xp + 0) % u32_mod ≡ t.total_xp
      small = omega arith

  minutes_later-suc :
      (k : ℕ) (t : XpTracker up) → minutes_later k (minute_later t) ≡ minutes_later (suc k) t
  unfolding add_xp
  minutes_later-suc k t =
      rw
        (
          sum,
          append_assoc t.pending_events (xp_earned 1 "uptime" ∷ [])
              (replicate k (xp_earned 1 "uptime")),
        )
        refl
    where
      sum : ((t.total_xp + 1) % u32_mod + k) % u32_mod ≡ (t.total_xp + suc k) % u32_mod
      sum = omega arith

  minute_later-small : (t : XpTracker up) → (minute_later t).total_xp < u32_mod
  unfolding add_xp
  minute_later-small t = omega arith

  minute_later-off :
      (j : ℕ) (t : XpTracker up)
      → minutes_off j (minute_later t).uptime_accumulator ≡ minutes_off (suc j) t.uptime_accumulator
  unfolding add_xp
  minute_later-off j t = refl

  tick_loop-minutes :
      (k n : ℕ) (t : XpTracker up)
      → t.total_xp < u32_mod
      → ((j : ℕ) → j < k → minute_passed (minutes_off j t.uptime_accumulator) ≡ true)
      → minute_passed (minutes_off k t.uptime_accumulator) ≡ false
      → k < n
      → tick_loop up n t ≡ some (minutes_later k t)
  tick_loop-minutes k zero t small passed before h = absurd (omega arith)
  tick_loop-minutes zero (suc n) t small passed before h =
      tick_loop-before n t before ∙ minutes_later-same t small
  tick_loop-minutes (suc k) (suc n) t small passed before h =
      tick_loop-passed n t (passed 0 (omega arith))
      ∙ tick_loop-minutes k n (minute_later t) (minute_later-small t)
          (λ j l. ap minute_passed (minute_later-off j t) ∙ passed (suc j) (omega arith))
          (ap minute_passed (minute_later-off k t) ∙ before) (omega arith)
      ∙ ap some (minutes_later-suc k t)

  -- When the uptime with `dt` added still has a minute after each of fewer than `k` subtractions of
  -- a minute, and has none after `k` of them, a tick with more than `k` rounds ends: it adds `k`
  -- points to a total below 2 ^ 32, modulo 2 ^ 32, appends `k` events of one point and keeps the
  -- rest of the uptime.
  pub tick-ends :
      (k rounds : ℕ) (dt : Seconds) (t : XpTracker up)
      → t.total_xp < u32_mod
      → ((j : ℕ) → j < k → minute_passed (minutes_off j (plus t.uptime_accumulator dt)) ≡ true)
      → minute_passed (minutes_off k (plus t.uptime_accumulator dt)) ≡ false
      → k < rounds
      → tick up rounds dt t
        ≡ some (minutes_later k (record t { uptime_accumulator = plus t.uptime_accumulator dt }))
  unfolding tick
  tick-ends k rounds dt t small passed before h =
      tick_loop-minutes k rounds (record t { uptime_accumulator = plus t.uptime_accumulator dt })
        small passed before h
