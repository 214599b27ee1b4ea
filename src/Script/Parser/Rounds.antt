-- ===== src/Script/Parser/Rounds.antt =====
-- The rounds of `parse_rule_file` in crates/aether-script/src/parser.rs, and its error recovery.
use aether_terminal.Prelude.{
  ℕ, zero, suc, ◌≤◌, ◌<◌, ◌≡◌, refl, ap, ◌∙◌, Bool, true, false, Option, none, some, List, [], ◌∷◌,
  ◌++◌, length, arith, ◌⊎◌, inl, inr, ◌≢◌,
}
use aether_terminal.Script.Token.{Token, Spanned, token_eq}
use aether_terminal.Script.Ast.{Rule}
use aether_terminal.Script.Parser.Monad.{
  M, Message, Parser, Outcome, failed, done, continue, attempted, panicked, out_of_fuel, pure,
  ◌>>=◌, ◌>>◌, attempt, peek, fail, skip, budget, kind, current,
}
use aether_terminal.Script.Parser.Sound.{
  Moved, Post, SoundAt, Sound, Sound-pure, Sound-budget, SoundAt-peek, StrictAt, StrictAt-SoundAt,
  StrictAt-peek, StrictAt-skip, StrictAt-budget, StrictAt-second, bump,
}
use aether_terminal.Script.Parser.{
  peeked_is, expect_at, expect, parse_rule, stops_recovery, recovery_loop, recover_to_rule,
  file_loop, parse_rule_file, start,
}
use aether_terminal.Script.Parser.Pieces.{SoundAt-choose}
use aether_terminal.Script.Parser.Conditions.{Enough}
use aether_terminal.Script.Parser.Rules.{parse_rule-StrictAt}

rule-cases :
    (t : Token)
    → (t ≡ Token.rule)
      ⊎ ((peeked_is Token.rule (some t) ≡ false) × (stops_recovery (some t) ≡ false))
unfolding token_eq
rule-cases Token.rule = inl refl
rule-cases _ = inr (refl, refl)

-- At any other token `parse_rule` reports an error and stays where it is.
record Refused (s s' : Parser) : Type 0 where
  same : s'.tokens ≡ s.tokens
  still : s'.position ≡ s.position

expect-Refused :
    (s : Parser) (t : Token)
    → kind (current s) ≡ some t
    → peeked_is Token.rule (some t) ≡ false
    → expect Token.rule s ≡ fail (Message.expected_token Token.rule (some t)) s
unfolding expect ◌>>=◌ peek
expect-Refused s t e h = rw (e, expect_at, h) (rw e)

parse_rule-Refused :
    (s : Parser) (t : Token)
    → kind (current s) ≡ some t
    → peeked_is Token.rule (some t) ≡ false
    → ((parse_rule s).0 ≡ failed) × Refused s (parse_rule s).1
unfolding parse_rule ◌>>=◌ fail
parse_rule-Refused s t e h =
    rw (expect-Refused s t e h) (refl, record { same = refl; still = refl })

not-stops_recovery : (t : Option Token) → stops_recovery t ≡ false → (u : Token) × (t ≡ some u)
not-stops_recovery none h = cc
not-stops_recovery (some u) h = (u, refl)

recovery_loop-Sound :
    (n : ℕ) (s : Parser) → s.position ≤ length s.tokens → Enough s n → SoundAt s (recovery_loop n)
unfolding recovery_loop
recovery_loop-Sound zero s within enough = absurd (omega arith)
recovery_loop-Sound (suc n) s within enough = SoundAt-peek s _ (
    SoundAt-choose s (stops_recovery (kind (current s))) _ _ (λ h. Sound-pure tt s)
      (λ h.
        let (u, e) = not-stops_recovery (kind (current s)) h in
        StrictAt-SoundAt s _ (
          StrictAt-skip s _ u e
            (λ room. recovery_loop-Sound n (bump s) (omega arith) (omega arith)))))

recover_to_rule-Sound : Sound recover_to_rule
unfolding recover_to_rule
recover_to_rule-Sound =
    Sound-budget recovery_loop
      (λ s. record { at = λ h. (recovery_loop-Sound _ s h (omega arith)).at h })

recover_to_rule-StrictAt :
    (s : Parser) (t : Token)
    → kind (current s) ≡ some t
    → stops_recovery (some t) ≡ false
    → StrictAt s recover_to_rule
unfolding recover_to_rule recovery_loop
recover_to_rule-StrictAt s t e h = StrictAt-budget s recovery_loop (
    StrictAt-peek s _ (
      StrictAt-second s _ _ _ (ap stops_recovery e ∙ h) (
        StrictAt-skip s _ t e
          (λ room. recovery_loop-Sound _ (bump s) (omega arith) (omega arith)))))

recovery_loop-ne-failed : (n : ℕ) (s : Parser) → (recovery_loop n s).0 ≢ failed
unfolding recovery_loop ◌>>=◌ peek skip
recovery_loop-ne-failed zero s = λ h. cc
recovery_loop-ne-failed (suc n) s =
    by_test (stops_recovery (kind (current s))) (recovery_loop-ne-failed n (bump s))
  where
    by_test :
        (b : Bool)
        → (recovery_loop n (bump s)).0 ≢ failed
        → ((elim b as (λ b. M (Unit {0})) [ true ↦ pure tt | false ↦ skip >> recovery_loop n ]) s).0
          ≢ failed
    by_test true ih = λ h. cc
    by_test false ih = ih

record Ahead (s s' : Parser) : Type 0 where
  same : s'.tokens ≡ s.tokens
  ahead : s.position < s'.position
  within : s'.position ≤ length s'.tokens

Post-done :
    (s t : Parser) (o : Outcome (Unit {0})) → o ≢ failed → Post s o t → (o ≡ done tt) × Moved s t
Post-done s t (done u) ne p = (refl, p.0)
Post-done s t failed ne p = absurd (ne refl)
Post-done s t panicked ne p = absurd p
Post-done s t out_of_fuel ne p = absurd p

-- What one round of `parse_rule_file` consumes: `o` and `t` are those of `parse_rule`.
abbrev Progress : Parser → Outcome Rule → Parser → Type 0
Progress s (done r) t = Ahead s t
Progress s failed t = ((recover_to_rule t).0 ≡ done tt) × Ahead s (recover_to_rule t).1
Progress s panicked t = ⊥
Progress s out_of_fuel t = ⊥

recover_to_rule-ne-failed : (s : Parser) → (recover_to_rule s).0 ≢ failed
unfolding recover_to_rule budget ◌>>=◌
recover_to_rule-ne-failed s = recovery_loop-ne-failed _ s

-- Past the keyword `rule` every end of the round has consumed it.
Progress-inside : (s t : Parser) (o : Outcome Rule) → Post (bump s) o t → Progress s o t
Progress-inside s t (done r) p = record {
  same = p.0.same;
  ahead = omega (arith, p.0.forward);
  within = p.0.within;
}
Progress-inside s t failed p =
    let (end, m) =
      Post-done t _ _ (recover_to_rule-ne-failed t) ((recover_to_rule-Sound t).at p.0.within) in
    (
      end,
      record {
        same = m.same ∙ p.0.same;
        ahead = omega (arith, p.0.forward, m.forward);
        within = m.within;
      },
    )
Progress-inside s t panicked p = p
Progress-inside s t out_of_fuel p = p

-- At another token the round fails at once, and recovery skips that token.
Progress-outside :
    (s t : Parser) (u : Token)
    → s.position ≤ length s.tokens
    → kind (current s) ≡ some u
    → stops_recovery (some u) ≡ false
    → Refused s t
    → Progress s failed t
Progress-outside s t u h e stops r =
    let e' : kind (current t) ≡ some u = rw (r.same, r.still) e in
    let (end, m) =
      Post-done (bump t) _ _ (recover_to_rule-ne-failed t)
        ((recover_to_rule-StrictAt t u e' stops).at (rw (r.same, r.still) h)) in
    (
      end,
      record {
        same = m.same ∙ r.same;
        ahead = omega (arith, m.forward, r.still);
        within = m.within;
      },
    )

parse_rule-Progress :
    (s : Parser) (u : Token)
    → s.position ≤ length s.tokens
    → kind (current s) ≡ some u
    → Progress s (parse_rule s).0 (parse_rule s).1
parse_rule-Progress s u h e = elim (rule-cases u) [
  | inl r ↦ Progress-inside s _ _ ((parse_rule-StrictAt s (e ∙ ap some r)).at h)
  | inr q ↦ let (f, r) = parse_rule-Refused s u e q.0 in rw f (Progress-outside s _ u h e q.1 r)
]

abbrev pub Returns : Outcome (List Rule) → Type 0
Returns o = (rules : List Rule) × (o ≡ done rules)

abbrev continue_file : ℕ → List Rule → Option Rule → M (List Rule)
continue_file n rules parsed = elim parsed [
  | some r ↦ file_loop n (rules ++ r ∷ [])
  | none ↦ recover_to_rule >> file_loop n rules
]

round-Returns :
    (n : ℕ) (rules : List Rule) (s t : Parser) (o : Outcome Rule)
    → ((more : List Rule) (u : Parser) → Ahead s u → Returns (file_loop n more u).0)
    → Progress s o t
    → Returns (continue (attempted o) (continue_file n rules) t).0
unfolding ◌>>=◌
round-Returns n rules s t (done r) ih p = ih _ t p
round-Returns n rules s t failed ih p = rw p.0 (ih rules _ p.1)
round-Returns n rules s t panicked ih p = absurd p
round-Returns n rules s t out_of_fuel ih p = absurd p

abbrev file_at : ℕ → List Rule → Option Token → M (List Rule)
file_at n rules t = elim t [
  | none ↦ pure rules
  | some _ ↦ attempt parse_rule >>= continue_file n rules
]

file_at-Returns :
    (n : ℕ) (rules : List Rule) (s : Parser) (t : Option Token)
    → s.position ≤ length s.tokens
    → kind (current s) ≡ t
    → ((more : List Rule) (u : Parser) → Ahead s u → Returns (file_loop n more u).0)
    → Returns (file_at n rules t s).0
unfolding ◌>>=◌ attempt
file_at-Returns n rules s none within e ih = (rules, refl)
file_at-Returns n rules s (some u) within e ih =
    round-Returns n rules s (parse_rule s).1 (parse_rule s).0 ih (parse_rule-Progress s u within e)

file_loop-Returns :
    (n : ℕ) (rules : List Rule) (s : Parser)
    → s.position ≤ length s.tokens
    → Enough s n
    → Returns (file_loop n rules s).0
unfolding file_loop ◌>>=◌ peek
file_loop-Returns zero rules s within enough = absurd (omega arith)
file_loop-Returns (suc n) rules s within enough =
    file_at-Returns n rules s (kind (current s)) within refl λ more u m.
      file_loop-Returns n more u m.within
        (omega (arith, m.ahead, ap (length {A = Spanned Token}) m.same))

pub parse_rule_file-Returns :
    (tokens : List (Spanned Token)) → Returns (parse_rule_file (start tokens)).0
unfolding parse_rule_file budget ◌>>=◌
parse_rule_file-Returns tokens = file_loop-Returns _ [] (start tokens) (omega arith) (omega arith)
