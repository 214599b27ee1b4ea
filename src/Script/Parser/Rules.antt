-- ===== src/Script/Parser/Rules.antt =====
-- One rule of crates/aether-script/src/parser.rs, with its loop over actions.
use aether_terminal.Prelude.{
  ℕ, zero, suc, ◌≤◌, ◌≡◌, ap, ◌∙◌, Option, some, List, [], ◌∷◌, ◌++◌, length, arith,
}
use aether_terminal.Script.Token.{Token, Span, Spanned, token_eq}
use aether_terminal.Script.Ast.{Condition, Action, Rule}
use aether_terminal.Script.Parser.Monad.{
  M, Message, Parser, pure, ◌>>=◌, ◌>>◌, budget, kind, current,
}
use aether_terminal.Script.Parser.Sound.{
  SoundAt, Sound, Sound-pure, Sound-fail, SoundAt-bind, Sound-bind, Sound-peek, Sound-budget,
  SoundAt-peek, StrictAt, StrictAt-SoundAt, StrictAt-bind, StrictAt-peek, StrictAt-advance,
  SoundAt-advance, bump,
}
use aether_terminal.Script.Parser.{
  expect_at, expect, expect_ident, duration_at, with_duration, parse_condition, starts_action,
  action_loop, nonempty, parse_rule,
}
use aether_terminal.Script.Parser.Pieces.{
  SoundAt-if, SoundAt-choose, peeked_is-some, expect-Sound, expect_ident-Sound,
  parse_action-StrictAt,
}
use aether_terminal.Script.Parser.Conditions.{Enough, parse_or-Sound}

duration_at-Sound :
    (s : Parser) (t : Option Token) → kind (current s) ≡ t → SoundAt s (duration_at t)
duration_at-Sound s (some (Token.duration n)) e =
    SoundAt-advance s _ _ e λ span moved. Sound-pure _ (bump s)
duration_at-Sound s _ e = Sound-fail _ s

with_duration-Sound :
    (cond : Condition) (s : Parser) (t : Option Token)
    → kind (current s) ≡ t
    → SoundAt s (with_duration cond t)
with_duration-Sound cond s t e =
    SoundAt-if s t _ _ _
      (λ u f. SoundAt-advance s _ u (e ∙ f) λ span moved.
        Sound-peek _
          (λ s' next g.
            SoundAt-bind s' _ _ (duration_at-Sound s' next g) (λ secs s'' m. Sound-pure _ s''))
          (bump s))
      (Sound-pure cond s) (peeked_is-some _ t)

parse_condition-Sound : Sound parse_condition
unfolding parse_condition
parse_condition-Sound =
    Sound-bind _ _ parse_or-Sound λ cond. Sound-peek _ (with_duration-Sound cond)

action_loop-Sound :
    (n : ℕ) (actions : List Action) (s : Parser)
    → s.position ≤ length s.tokens
    → Enough s n
    → SoundAt s (action_loop n actions)
unfolding action_loop
action_loop-Sound zero actions s within enough = absurd (omega arith)
action_loop-Sound (suc n) actions s within enough = SoundAt-peek s _ (
    SoundAt-choose s (starts_action (kind (current s))) _ _
      (λ h. StrictAt-SoundAt s _ (
        StrictAt-bind s _ _ (parse_action-StrictAt s h) (λ a s' m.
          action_loop-Sound n (actions ++ a ∷ []) s' m.within
            (omega (arith, ap (length {A = Spanned Token}) m.same)))))
      (λ h. Sound-pure actions s))

nonempty-Sound : (actions : List Action) → Sound (nonempty actions)
nonempty-Sound [] = Sound-fail _
nonempty-Sound (a ∷ actions) = Sound-pure _

-- What follows the keyword `rule`.
abbrev after_rule : Span → M Rule
after_rule start_span = do
  name ← expect_ident Message.expected_rule_name
  expect Token.l_brace
  expect Token.when
  condition ← parse_condition
  expect Token.then_
  rounds ← budget
  found ← action_loop rounds []
  actions ← nonempty found
  end_span ← expect Token.r_brace
  pure (record {
    name = name;
    condition = condition;
    actions = actions;
    span = record { start = start_span.start; end = end_span.end };
  })

after_rule-Sound : (start_span : Span) → Sound (after_rule start_span)
after_rule-Sound start_span = Sound-bind _ _ (expect_ident-Sound _) λ name.
    Sound-bind _ _ (expect-Sound _) λ sp. Sound-bind _ _ (expect-Sound _) λ sp.
      Sound-bind _ _ parse_condition-Sound λ condition. Sound-bind _ _ (expect-Sound _) λ sp.
        Sound-budget _ λ s.
          SoundAt-bind s _ _ (record { at = λ h. (action_loop-Sound _ [] s h (omega arith)).at h })
            λ found s' m.
              Sound-bind _ _ (nonempty-Sound found)
                (λ actions. Sound-bind _ _ (expect-Sound _) (λ end_span. Sound-pure _)) s'

expect-StrictAt : (s : Parser) → kind (current s) ≡ some Token.rule → StrictAt s (expect Token.rule)
unfolding expect token_eq
expect-StrictAt s e =
    StrictAt-peek s (expect_at Token.rule)
      (rw e (StrictAt-advance s _ _ e (λ span. Sound-pure span (bump s))))

pub parse_rule-StrictAt : (s : Parser) → kind (current s) ≡ some Token.rule → StrictAt s parse_rule
unfolding parse_rule
parse_rule-StrictAt s e =
    StrictAt-bind s _ _ (expect-StrictAt s e) (λ sp s' m. after_rule-Sound sp s')
