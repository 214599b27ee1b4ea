-- ===== src/Script/Parser/Pieces.antt =====
-- The parts of crates/aether-script/src/parser.rs without a loop: tokens, actions, comparisons.
use aether_terminal.Prelude.{◌≡◌, refl, ◌∙◌, String, Bool, true, false, Option, none, some}
use aether_terminal.Script.Token.{Token}
use aether_terminal.Script.Parser.Monad.{M, Message, Parser, pure, ◌>>◌, advance, kind, current}
use aether_terminal.Script.Parser.Sound.{
  SoundAt, Sound, Sound-pure, Sound-fail, Sound-bind, Sound-peek, StrictAt, StrictAt-SoundAt,
  StrictAt-peek, StrictAt-advance, SoundAt-advance, bump,
}
use aether_terminal.Script.Parser.{
  peeked_is, expect_at, expect, as_ident, as_string, ident_at, expect_ident, string_at,
  expect_string, severity_at, parse_severity, action_at, parse_action, after_object, expr_at,
  parse_expr, operator_at, parse_cmp_op, parse_comparison, starts_action,
}

-- A branch that consumes what it peeked.
module _ {B : Type 0} where
  pub SoundAt-if :
      (s : Parser) (t : Option Token) (b : Bool) (yes_branch no_branch : M B)
      → ((u : Token) → t ≡ some u → SoundAt s yes_branch)
      → SoundAt s no_branch
      → (b ≡ true → (u : Token) × (t ≡ some u))
      → SoundAt s (elim b [ true ↦ yes_branch | false ↦ no_branch ])
  SoundAt-if s t true yes_branch no_branch y n found = let (u, e) = found refl in y u e
  SoundAt-if s t false yes_branch no_branch y n found = n

module _ {B : Type 0} where
  pub SoundAt-choose :
      (s : Parser) (b : Bool) (first_branch second_branch : M B)
      → (b ≡ true → SoundAt s first_branch)
      → (b ≡ false → SoundAt s second_branch)
      → SoundAt s (elim b [ true ↦ first_branch | false ↦ second_branch ])
  SoundAt-choose s true f g y n = y refl
  SoundAt-choose s false f g y n = n refl

pub peeked_is-some :
    (expected : Token) (t : Option Token) → peeked_is expected t ≡ true → (u : Token) × (t ≡ some u)
peeked_is-some expected none h = cc
peeked_is-some expected (some u) h = (u, refl)

pub expect-Sound : (expected : Token) → Sound (expect expected)
unfolding expect
expect-Sound expected = Sound-peek (expect_at expected) λ s t e.
    SoundAt-if s t (peeked_is expected t) _ _
      (λ u f. SoundAt-advance s _ u (e ∙ f) (λ span moved. Sound-pure span (bump s)))
      (Sound-fail _ s) (peeked_is-some expected t)

ident_at-Sound :
    (message : Option Token → Message) (s : Parser) (t : Option Token)
    → kind (current s) ≡ t
    → SoundAt s (ident_at message t)
ident_at-Sound message s (some (Token.ident name)) e =
    SoundAt-advance s as_ident _ e (λ span moved. Sound-pure name (bump s))
ident_at-Sound message s _ e = Sound-fail _ s

pub expect_ident-Sound : (message : Option Token → Message) → Sound (expect_ident message)
unfolding expect_ident
expect_ident-Sound message = Sound-peek (ident_at message) (ident_at-Sound message)

string_at-Sound :
    (context : String) (s : Parser) (t : Option Token)
    → kind (current s) ≡ t
    → SoundAt s (string_at context t)
string_at-Sound context s (some (Token.string_lit text)) e =
    SoundAt-advance s as_string _ e (λ span moved. Sound-pure text (bump s))
string_at-Sound context s _ e = Sound-fail _ s

expect_string-Sound : (context : String) → Sound (expect_string context)
unfolding expect_string
expect_string-Sound context = Sound-peek (string_at context) (string_at-Sound context)

-- A branch that consumes one token and returns.
module _ {A : Type 0} where
  SoundAt-take :
      (s : Parser) (t : Token) (a : A) → kind (current s) ≡ some t → SoundAt s (advance >> pure a)
  SoundAt-take s t a e = SoundAt-advance s _ t e (λ span moved. Sound-pure a (bump s))

severity_at-Sound :
    (s : Parser) (t : Option Token) → kind (current s) ≡ t → SoundAt s (severity_at t)
severity_at-Sound s (some Token.info) e = SoundAt-take s _ _ e
severity_at-Sound s (some Token.warning) e = SoundAt-take s _ _ e
severity_at-Sound s (some Token.critical) e = SoundAt-take s _ _ e
severity_at-Sound s _ e = Sound-fail _ s

parse_severity-Sound : Sound parse_severity
unfolding parse_severity
parse_severity-Sound = Sound-peek severity_at severity_at-Sound

alert-StrictAt :
    (s : Parser) → kind (current s) ≡ some Token.alert → StrictAt s (action_at (some Token.alert))
alert-StrictAt s e = StrictAt-advance s _ _ e λ span.
    Sound-bind _ _ (expect_string-Sound _)
      (λ message.
        Sound-bind _ _ (expect-Sound _)
          (λ sp. Sound-bind _ _ parse_severity-Sound (λ level. Sound-pure _)))
      (bump s)

log-StrictAt :
    (s : Parser) → kind (current s) ≡ some Token.log → StrictAt s (action_at (some Token.log))
log-StrictAt s e =
    StrictAt-advance s _ _ e
      λ span. Sound-bind _ _ (expect_string-Sound _) (λ message. Sound-pure _) (bump s)

action_at-Sound : (s : Parser) (t : Option Token) → kind (current s) ≡ t → SoundAt s (action_at t)
action_at-Sound s (some Token.alert) e = StrictAt-SoundAt s _ (alert-StrictAt s e)
action_at-Sound s (some Token.kill) e = SoundAt-take s _ _ e
action_at-Sound s (some Token.log) e = StrictAt-SoundAt s _ (log-StrictAt s e)
action_at-Sound s _ e = Sound-fail _ s

parse_action-Sound : Sound parse_action
unfolding parse_action
parse_action-Sound = Sound-peek action_at action_at-Sound

action_at-StrictAt :
    (s : Parser) (t : Option Token)
    → kind (current s) ≡ t
    → starts_action t ≡ true
    → StrictAt s (action_at t)
action_at-StrictAt s (some Token.alert) e h = alert-StrictAt s e
action_at-StrictAt s (some Token.kill) e h =
    StrictAt-advance s _ _ e (λ span. Sound-pure _ (bump s))
action_at-StrictAt s (some Token.log) e h = log-StrictAt s e
action_at-StrictAt s _ e h = cc

pub parse_action-StrictAt :
    (s : Parser) → starts_action (kind (current s)) ≡ true → StrictAt s parse_action
unfolding parse_action
parse_action-StrictAt s h = StrictAt-peek s action_at (action_at-StrictAt s _ refl h)

after_object-Sound :
    (object : String) (s : Parser) (t : Option Token)
    → kind (current s) ≡ t
    → SoundAt s (after_object object t)
after_object-Sound object s t e =
    SoundAt-if s t _ _ _
      (λ u f.
        SoundAt-advance s _ u (e ∙ f)
          λ span moved. Sound-bind _ _ (expect_ident-Sound _) (λ field. Sound-pure _) (bump s))
      (Sound-fail _ s) (peeked_is-some _ t)

expr_at-Sound : (s : Parser) (t : Option Token) → kind (current s) ≡ t → SoundAt s (expr_at t)
expr_at-Sound s (some Token.process) e = SoundAt-advance s _ _ e λ span moved.
    Sound-bind _ _ (expect-Sound _)
      (λ sp. Sound-bind _ _ (expect_ident-Sound _) (λ field. Sound-pure _)) (bump s)
expr_at-Sound s (some (Token.ident object)) e = SoundAt-advance s _ _ e λ span moved.
    Sound-bind _ _ (Sound-pure object) (λ name. Sound-peek _ (after_object-Sound name)) (bump s)
expr_at-Sound s (some (Token.integer n)) e =
    SoundAt-advance s _ _ e λ span moved. Sound-pure _ (bump s)
expr_at-Sound s (some (Token.float n)) e =
    SoundAt-advance s _ _ e λ span moved. Sound-pure _ (bump s)
expr_at-Sound s (some (Token.percent n)) e =
    SoundAt-advance s _ _ e λ span moved. Sound-pure _ (bump s)
expr_at-Sound s (some (Token.duration n)) e =
    SoundAt-advance s _ _ e λ span moved. Sound-pure _ (bump s)
expr_at-Sound s (some (Token.string_lit n)) e =
    SoundAt-advance s _ _ e λ span moved. Sound-pure _ (bump s)
expr_at-Sound s _ e = Sound-fail _ s

parse_expr-Sound : Sound parse_expr
unfolding parse_expr
parse_expr-Sound = Sound-peek expr_at expr_at-Sound

operator_at-Sound :
    (s : Parser) (t : Option Token) → kind (current s) ≡ t → SoundAt s (operator_at t)
operator_at-Sound s (some Token.gt) e = SoundAt-take s _ _ e
operator_at-Sound s (some Token.lt) e = SoundAt-take s _ _ e
operator_at-Sound s (some Token.gte) e = SoundAt-take s _ _ e
operator_at-Sound s (some Token.lte) e = SoundAt-take s _ _ e
operator_at-Sound s (some Token.eq) e = SoundAt-take s _ _ e
operator_at-Sound s (some Token.neq) e = SoundAt-take s _ _ e
operator_at-Sound s _ e = Sound-fail _ s

parse_cmp_op-Sound : Sound parse_cmp_op
unfolding parse_cmp_op
parse_cmp_op-Sound = Sound-peek operator_at operator_at-Sound

pub parse_comparison-Sound : Sound parse_comparison
unfolding parse_comparison
parse_comparison-Sound = Sound-bind _ _ parse_expr-Sound λ left.
    Sound-bind _ _ parse_cmp_op-Sound λ op. Sound-bind _ _ parse_expr-Sound λ right. Sound-pure _
