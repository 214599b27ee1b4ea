-- ===== src/Script/Parser/Conditions.antt =====
-- The condition loops of crates/aether-script/src/parser.rs.
use aether_terminal.Prelude.{
  ℕ, zero, suc, ◌-◌, ◌≤◌, ◌<◌, ◌≡◌, refl, ap, true, false, Option, none, some, length, arith,
}
use aether_terminal.Script.Token.{Token, Spanned}
use aether_terminal.Script.Ast.{Condition}
use aether_terminal.Script.Parser.Monad.{
  M, Parser, pure, ◌>>=◌, ◌>>◌, peek, advance, budget, kind, current,
}
use aether_terminal.Script.Parser.Sound.{
  SoundAt, Sound, Sound-pure, SoundAt-bind, Sound-bind, Sound-budget, SoundAt-peek, SoundAt-advance,
  bump,
}
use aether_terminal.Script.Parser.{
  peeked_is, is_not, not_loop, parse_not, and_loop, parse_and, or_loop, parse_or,
}
use aether_terminal.Script.Parser.Pieces.{SoundAt-if, peeked_is-some, parse_comparison-Sound}

is_not-some : (t : Option Token) → is_not t ≡ true → (u : Token) × (t ≡ some u)
is_not-some none h = cc
is_not-some (some u) h = (u, refl)

-- Rounds left for a loop that consumes a token in each.
abbrev pub Enough : Parser → ℕ → Type 0
Enough s n = length s.tokens - s.position < n

not_loop-Sound :
    (n : ℕ) (s : Parser) → s.position ≤ length s.tokens → Enough s n → SoundAt s (not_loop n)
unfolding not_loop
not_loop-Sound zero s within enough = absurd (omega arith)
not_loop-Sound (suc n) s within enough = SoundAt-peek s _ (
    SoundAt-if s _ _ _ _
      (λ u f. SoundAt-advance s _ u f λ span moved.
        SoundAt-bind (bump s) _ _
          (not_loop-Sound n (bump s) moved.within (omega (arith, moved.within)))
          (λ inner s' m. Sound-pure _ s'))
      (parse_comparison-Sound s) (is_not-some (kind (current s))))

parse_not-Sound : Sound parse_not
unfolding parse_not
parse_not-Sound s = record {
  at = λ h.
      (Sound-budget not_loop (λ t. record { at = λ k. (not_loop-Sound _ t k (omega arith)).at k })
          s).at
        h;
}

-- The loop `while self.peek() == Some(&separator)` of `parse_and` and of `parse_or`.
module _ (part : M Condition) (join : Condition → Condition → Condition) (part-Sound : Sound part)
    (separator : Token) (loop : ℕ → Condition → M Condition)
    (step : (n : ℕ) (left : Condition)
      → loop (suc n) left ≡ (
          peek >>= λ t. elim (peeked_is separator t) [
            | true ↦ (do advance; right ← part; loop n (join left right))
            | false ↦ pure left
          ])) where
  loop-Sound :
      (n : ℕ) (left : Condition) (s : Parser)
      → s.position ≤ length s.tokens
      → Enough s n
      → SoundAt s (loop n left)
  loop-Sound zero left s within enough = absurd (omega arith)
  loop-Sound (suc n) left s within enough = rw step (
      SoundAt-peek s _ (
        SoundAt-if s _ _ _ _
          (λ u f. SoundAt-advance s _ u f λ span moved.
            SoundAt-bind (bump s) _ _ (part-Sound (bump s)) (λ right s' m.
              loop-Sound n (join left right) s' m.within
                (omega (arith, ap (length {A = Spanned Token}) m.same))))
          (Sound-pure left s) (peeked_is-some separator (kind (current s)))))

  chain-Sound : Sound (do left ← part; rounds ← budget; loop rounds left)
  chain-Sound =
      Sound-bind _ _ part-Sound λ left.
        Sound-budget _ (λ s. record { at = λ h. (loop-Sound _ left s h (omega arith)).at h })

parse_and-Sound : Sound parse_and
unfolding parse_and and_loop
parse_and-Sound =
    chain-Sound parse_not Condition.and parse_not-Sound Token.and and_loop (λ n left. refl)

pub parse_or-Sound : Sound parse_or
unfolding parse_or or_loop
parse_or-Sound =
    chain-Sound parse_and Condition.or parse_and-Sound Token.or or_loop (λ n left. refl)
