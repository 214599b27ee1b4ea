-- ===== src/Script/Runtime/Streak.antt =====
-- What the duration tracker of crates/aether-script/src/runtime.rs remembers of the observations
-- that it was given.
use aether_terminal.Prelude.{
  ℕ, ◌+◌, ◌-◌, ◌≤◌, ◌≡◌, refl, ◌⊎◌, inl, inr, ◌↔◌, String, Bool, true, false, Option, none, some,
  List, [], ◌∷◌, leb, arith, if◌then◌else◌, pair_eq, Bool-cases, Eq,
}
use aether_terminal.Prelude.Map.{Map, lookup, lookup-insert, lookup-remove}
use aether_terminal.Script.Runtime.{Key, DurationTracker, new_tracker, started, check_duration}

-- One call of `check_duration`. The clock is read once for both uses.
pub record Observation : Type 0 where
  pub rule_name : String
  pub pid : ℕ
  pub met : Bool
  pub required : ℕ
  pub time : ℕ

unfoldable pub observe : Observation → DurationTracker → DurationTracker × Bool
observe o tracker = check_duration o.rule_name o.pid o.met o.required o.time o.time tracker

-- The tracker after the observations, the latest first.
unfoldable pub remember : List Observation → DurationTracker
remember [] = new_tracker
remember (o ∷ history) = (observe o (remember history)).0

abbrev pub about : Key → Observation → Bool
about k o = Eq.eqb pair_eq (o.rule_name, o.pid) k

-- Going back in time, the observations of `k` are met until one that is `required` old at `now`.
abbrev pub MetFor : Key → ℕ → ℕ → List Observation → Type 0
MetFor k required now [] = ⊥
MetFor k required now (o ∷ history) =
    if about k o
    then (o.met ≡ true) × ((o.time + required ≤ now) ⊎ MetFor k required now history)
    else MetFor k required now history

-- The times do not fall, up to `now`.
abbrev pub IsOrdered : ℕ → List Observation → Type 0
IsOrdered now [] = Unit
IsOrdered now (o ∷ history) = (o.time ≤ now) × IsOrdered o.time history

-- The timer of one key after an observation of the key.
abbrev restarted : Bool → ℕ → Option ℕ → Option ℕ
restarted false time old = none
restarted true time (some start) = some start
restarted true time none = some time

started-lookup :
    (key k : Key) (time : ℕ) (timers : Map Key ℕ) (old : Option ℕ)
    → lookup key timers ≡ old
    → lookup k (started key time timers old).1
      ≡ (if Eq.eqb pair_eq key k then restarted true time (lookup k timers) else lookup k timers)
started-lookup key k time timers none e = elim (Bool-cases (Eq.eqb pair_eq key k)) [
  | inl same ↦
      let e' : lookup k timers ≡ none = rw (← (Eq.eqb_iff pair_eq key k).0 same) e in
      rw (lookup-insert, same, e')
  | inr other ↦ rw (lookup-insert, other)
]
started-lookup key k time timers (some start) e = elim (Bool-cases (Eq.eqb pair_eq key k)) [
  | inl same ↦
      let e' : lookup k timers ≡ some start = rw (← (Eq.eqb_iff pair_eq key k).0 same) e in
      rw (same, e')
  | inr other ↦ rw other
]

check_duration-lookup :
    (k : Key) (name : String) (pid : ℕ) (met : Bool) (required time : ℕ) (tracker : DurationTracker)
    → lookup k (check_duration name pid met required time time tracker).0.timers ≡ (
        if Eq.eqb pair_eq (name, pid) k
        then restarted met time (lookup k tracker.timers)
        else lookup k tracker.timers)
unfolding check_duration
check_duration-lookup k name pid true required time tracker =
    started-lookup (name, pid) k time tracker.timers _ refl
check_duration-lookup k name pid false required time tracker =
    lookup-remove (name, pid) k tracker.timers

-- A timer of `k` that is `required` old at `now`.
abbrev IsDue : ℕ → ℕ → Option ℕ → Type 0
IsDue required now none = ⊥
IsDue required now (some start) = start + required ≤ now

-- No timer starts later than the latest observation.
abbrev StartsBy : ℕ → Option ℕ → Type 0
StartsBy now none = Unit
StartsBy now (some start) = start ≤ now

module _ (k : Key) where
  timer : List Observation → Option ℕ
  timer history = lookup k (remember history).timers

  timer-step :
      (o : Observation) (history : List Observation)
      → timer (o ∷ history)
        ≡ (if about k o then restarted o.met o.time (timer history) else timer history)
  unfolding timer remember observe
  timer-step o history =
      check_duration-lookup k o.rule_name o.pid o.met o.required o.time (remember history)

  restarted-StartsBy :
      (b met : Bool) (time now : ℕ) (old : Option ℕ)
      → time ≤ now
      → StartsBy time old
      → StartsBy now (if b then restarted met time old else old)
  restarted-StartsBy b met time now old h p = ground arith

  timer-StartsBy :
      (history : List Observation) (now : ℕ) → IsOrdered now history → StartsBy now (timer history)
  timer-StartsBy [] now h = unfold timer remember lookup in tt
  timer-StartsBy (o ∷ history) now h = rw (timer-step o history) (
      restarted-StartsBy (about k o) o.met o.time now (timer history) h.0
        (timer-StartsBy history o.time h.1))

  round-IsDue :
      (b met : Bool) (time required now : ℕ) (old : Option ℕ) (P : Type 0)
      → StartsBy time old
      → (IsDue required now old ↔ P)
      → IsDue required now (if b then restarted met time old else old)
        ↔ (if b then (met ≡ true) × ((time + required ≤ now) ⊎ P) else P)
  round-IsDue false met time required now old P s e = e
  round-IsDue true false time required now old P s e = (λ h. absurd h, λ h. cc (h.0))
  round-IsDue true true time required now none P s e =
      (λ h. (refl, inl h), λ h. elim (h.1) [ inl p ↦ p | inr p ↦ absurd (e.1 p) ])
  round-IsDue true true time required now (some start) P s e =
      (λ h. (refl, inr (e.0 h)), λ h. elim (h.1) [ inl p ↦ omega arith | inr p ↦ e.1 p ])

  later :
      (history : List Observation) {time now : ℕ}
      → time ≤ now
      → IsOrdered time history
      → IsOrdered now history
  later [] h p = tt
  later (o ∷ history) h p = (omega (arith, p.0), p.1)

  timer-IsDue :
      (required now : ℕ) (history : List Observation)
      → IsOrdered now history
      → IsDue required now (timer history) ↔ MetFor k required now history
  timer-IsDue required now [] h = unfold timer remember lookup in (λ x. x, λ x. x)
  timer-IsDue required now (o ∷ history) h = rw (timer-step o history) (
      round-IsDue (about k o) o.met o.time required now (timer history) _
        (timer-StartsBy history o.time h.1)
        (timer-IsDue required now history (later history h.0 h.1)))

-- The answer of a call whose timer, if the condition holds, is `old`.
answer :
    (met : Bool) (name : String) (pid required time : ℕ) (tracker : DurationTracker) (P : Type 0)
    → StartsBy time (lookup (name, pid) tracker.timers)
    → (IsDue required time (lookup (name, pid) tracker.timers) ↔ P)
    → ((check_duration name pid met required time time tracker).1 ≡ true)
      ↔ ((met ≡ true) × ((time + required ≤ time) ⊎ P))
unfolding check_duration
answer false name pid required time tracker P s e = (λ h. cc, λ h. cc (h.0))
answer true name pid required time tracker P s e = go (lookup (name, pid) tracker.timers) s e
  where
    go :
        (old : Option ℕ)
        → StartsBy time old
        → (IsDue required time old ↔ P)
        → (leb required (time - (started (name, pid) time tracker.timers old).0) ≡ true)
          ↔ ((true ≡ true) × ((time + required ≤ time) ⊎ P))
    go none s e = (
      λ h. (refl, inl (ground arith)),
      λ h. elim (h.1) [ inl p ↦ ground arith | inr p ↦ absurd (e.1 p) ],
    )
    go (some start) s e = (
      λ h. (refl, inr (e.0 (ground arith))),
      λ h. elim (h.1) [
        | inl p ↦ ground arith
        | inr p ↦ let q : start + required ≤ time = e.1 p in ground arith
      ],
    )

-- After any observations at times that do not fall, and with the clock read once for each call, a
-- call for a rule and a process answers `true`
-- exactly when its condition is met, and was met at each earlier call for that rule and process
-- back to one, this call or an earlier one, that is at least `required` old.
pub observe-true_iff :
    (o : Observation) (history : List Observation)
    → IsOrdered o.time history
    → ((observe o (remember history)).1 ≡ true)
      ↔ MetFor (o.rule_name, o.pid) o.required o.time (o ∷ history)
unfolding observe
observe-true_iff o history h =
    rw ((Eq.eqb_iff pair_eq (o.rule_name, o.pid) (o.rule_name, o.pid)).1 refl) (
      answer o.met o.rule_name o.pid o.required o.time (remember history) _
        (unfold timer in timer-StartsBy (o.rule_name, o.pid) history o.time h)
        (unfold timer in timer-IsDue (o.rule_name, o.pid) o.required o.time history h))
