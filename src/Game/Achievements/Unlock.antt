-- ===== src/Game/Achievements/Unlock.antt =====
-- What `check` of crates/aether-gamification/src/achievements.rs unlocks.
use aether_terminal.Prelude.{
  ℕ, suc, ltb, leb, if◌then◌else◌, ◌≡◌, refl, ap, ◌∙◌, Bool, true, false, ◌&&◌, ◌||◌, String, List,
  [], ◌∷◌, str_eq, str_eq_iff, arith,
}
use aether_terminal.Game.Achievements.{
  AchievementDef, GameState, AchievementTracker, contains, condition_met, check_def, check_loop,
  check, is_unlocked,
}

-- A definition of the list has the id.
unfoldable pub listed : String → List AchievementDef → Bool
listed id [] = false
listed id (def ∷ defs) = str_eq def.id id || listed id defs

-- The goal with the id, if there is one, is reached.
unfoldable pub reached : String → List (String × Bool) → Bool
reached id [] = false
reached id ((name, met) ∷ rest) = if str_eq id name then met else reached id rest

module _ {Hours : Type 0} (over_24 : Hours → Bool) (st : GameState Hours) where
  -- A definition of the list has the id, and its condition holds.
  abbrev earned : String → List AchievementDef → Bool
  earned id [] = false
  earned id (def ∷ defs) = (str_eq def.id id && condition_met over_24 st def.id) || earned id defs

  -- The goals, with the smallest counts that reach them; the time is an hour in nanoseconds.
  abbrev pub goals : List (String × Bool)
  goals =
      ("first_blood", leb 1 st.kills)
      ∷ ("uptime_champion", over_24 st.uptime_hours)
      ∷ ("network_oracle", leb 101 st.dpi_analyses)
      ∷ ("zombie_hunter", leb 51 st.zombie_kills)
      ∷ ("ai_whisperer", leb 101 st.arbiter_approvals)
      ∷ ("first_responder", leb 1 st.diagnostic_resolved_count)
      ∷ ("firefighter", leb 10 st.critical_resolved_count)
      ∷ ("stability_master", leb 3_600_000_000_000 st.time_without_critical)
      ∷ []

  at_least : (n m : ℕ) → ltb n m ≡ leb (suc n) m
  at_least n m = ground arith

  condition_met-goals : (id : String) → condition_met over_24 st id ≡ reached id goals
  unfolding condition_met reached
  condition_met-goals id =
      rw
        (
          at_least 0 st.kills,
          at_least 100 st.dpi_analyses,
          at_least 50 st.zombie_kills,
          at_least 100 st.arbiter_approvals,
          at_least 0 st.diagnostic_resolved_count,
        )
        refl

  earned-goals :
      (id : String) (defs : List AchievementDef)
      → earned id defs ≡ (listed id defs && reached id goals)
  unfolding listed
  earned-goals id [] = refl
  earned-goals id (def ∷ defs) =
      join _ _ _ _ _
        (λ e. ap (condition_met over_24 st) ((str_eq_iff def.id id).0 e) ∙ condition_met-goals id)
        (earned-goals id defs)
    where
      join :
          (s c r l e : Bool) → (s ≡ true → c ≡ r) → e ≡ (l && r) → ((s && c) || e) ≡ ((s || l) && r)
      join s c r l e h k = ground arith

  contains-check_def :
      (id : String) (def : AchievementDef) (t : AchievementTracker) (newly : List AchievementDef)
      → contains id (check_def over_24 st def (t, newly)).0.unlocked
        ≡ (contains id t.unlocked || (str_eq def.id id && condition_met over_24 st def.id))
  unfolding check_def contains
  contains-check_def id def t newly = ground (arith, str_eq_iff def.id id)

  contains-check_loop :
      (id : String) (defs : List AchievementDef) (s : AchievementTracker × List AchievementDef)
      → contains id (check_loop over_24 st defs s).0.unlocked
        ≡ (contains id s.0.unlocked || earned id defs)
  unfolding check_loop
  contains-check_loop id [] s = ground arith
  contains-check_loop id (def ∷ defs) (t, newly) =
      contains-check_loop id defs (check_def over_24 st def (t, newly))
      ∙ ap (λ b. b || earned id defs) (contains-check_def id def t newly)
      ∙ or_assoc (contains id t.unlocked) _ (earned id defs)
    where
      or_assoc : (a b c : Bool) → ((a || b) || c) ≡ (a || (b || c))
      or_assoc a b c = ground arith

  definitions-check_def :
      (def : AchievementDef) (s : AchievementTracker × List AchievementDef)
      → (check_def over_24 st def s).0.definitions ≡ s.0.definitions
  unfolding check_def
  definitions-check_def def s = ground arith

  definitions-check_loop :
      (defs : List AchievementDef) (s : AchievementTracker × List AchievementDef)
      → (check_loop over_24 st defs s).0.definitions ≡ s.0.definitions
  unfolding check_loop
  definitions-check_loop [] s = refl
  definitions-check_loop (def ∷ defs) s =
      definitions-check_loop defs (check_def over_24 st def s) ∙ definitions-check_def def s

  -- After a check exactly those achievements are unlocked that were unlocked before it or that are
  -- among the definitions and whose goal is reached: a kill, an uptime over 24 h, 101 analyses of
  -- flows, 51 killed zombies, 101 approvals, a resolved diagnostic, 10 resolved critical
  -- diagnostics, or an hour without a critical diagnostic.
  pub is_unlocked-check :
      (id : String) (t : AchievementTracker)
      → is_unlocked id (check over_24 st t).0
        ≡ (is_unlocked id t || (listed id t.definitions && reached id goals))
  unfolding is_unlocked check
  is_unlocked-check id t =
      contains-check_loop id t.definitions (t, [])
      ∙ ap (λ b. contains id t.unlocked || b) (earned-goals id t.definitions)

  -- Every definition whose condition holds is unlocked in `t`.
  abbrev Settled : AchievementTracker → List AchievementDef → Type 0
  Settled t [] = Unit
  Settled t (def ∷ defs) =
      (condition_met over_24 st def.id ≡ true → contains def.id t.unlocked ≡ true) × Settled t defs

  check_def-Settled :
      (def : AchievementDef) (s : AchievementTracker × List AchievementDef)
      → (condition_met over_24 st def.id ≡ true → contains def.id s.0.unlocked ≡ true)
      → check_def over_24 st def s ≡ s
  unfolding check_def
  check_def-Settled def s h = ground arith

  check_loop-Settled :
      (defs : List AchievementDef) (s : AchievementTracker × List AchievementDef)
      → Settled s.0 defs
      → check_loop over_24 st defs s ≡ s
  unfolding check_loop
  check_loop-Settled [] s h = refl
  check_loop-Settled (def ∷ defs) s h =
      rw (check_def-Settled def s h.0) (check_loop-Settled defs s h.1)

  earned-suffix :
      (t : AchievementTracker) (defs : List AchievementDef)
      → ((id : String) → earned id defs ≡ true → contains id t.unlocked ≡ true)
      → Settled t defs
  earned-suffix t [] h = tt
  earned-suffix t (def ∷ defs) h = (
    λ m. h def.id (ground (arith, str_eq_iff def.id def.id)),
    earned-suffix t defs (λ id e. h id (ground arith)),
  )

  check-Settled : (t : AchievementTracker) → Settled (check over_24 st t).0 t.definitions
  unfolding check
  check-Settled t =
      earned-suffix (check over_24 st t).0 t.definitions
        (λ id e. contains-check_loop id t.definitions (t, []) ∙ or_true _ _ e)
    where
      or_true : (a b : Bool) → b ≡ true → (a || b) ≡ true
      or_true a b h = ground arith

  -- A second check in the same game state unlocks nothing and emits nothing.
  pub check-check :
      (t : AchievementTracker)
      → check over_24 st (check over_24 st t).0 ≡ ((check over_24 st t).0, [])
  unfolding check
  check-check t =
      ap (λ (defs : List AchievementDef). check_loop over_24 st defs ((check over_24 st t).0, []))
        (definitions-check_loop t.definitions (t, []))
      ∙ check_loop-Settled t.definitions ((check over_24 st t).0, []) (check-Settled t)
