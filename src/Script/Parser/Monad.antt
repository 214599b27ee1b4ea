-- ===== src/Script/Parser/Monad.antt =====
-- The state of `Parser` in crates/aether-script/src/parser.rs and its primitive steps.
use aether_terminal.Prelude.{
  ℕ, suc, ◌+◌, ◌-◌, String, Option, none, some, List, [], ◌∷◌, ◌++◌, length, get_elem?,
}
use aether_terminal.Script.Token.{Token, Span, Spanned}

-- `found()` is the token at the position, or none at the end of the input.
pub data Message : Type 0 where
  expected_token : Token → Option Token → Message
  expected_rule_name expected_duration expected_operator : Option Token → Message
  expected_field expected_expression expected_action expected_severity : Option Token → Message
  expected_string : String → Option Token → Message
  expected_dot_after : String → Message
  expected_an_action : Message

pub record ParseError : Type 0 where
  pub message : Message
  pub span : Span

pub record Parser : Type 0 where
  pub tokens : List (Spanned Token)
  pub position : ℕ
  pub errors : List ParseError

-- `panicked` is an index out of bounds or an `unreachable!()`.
pub data Outcome (A : Type 0) : Type 0 where
  done : A → Outcome A
  failed panicked out_of_fuel : Outcome A

abbrev pub M : Type 0 → Type 0
M A = Parser → Outcome A × Parser

module _ {A : Type 0} where
  abbrev pub pure : A → M A
  pure a s = (done a, s)

  abbrev pub panic : M A
  panic s = (panicked, s)

  abbrev pub exhausted : M A
  exhausted s = (out_of_fuel, s)

module _ {A B : Type 0} where
  abbrev pub continue : Outcome A → (A → M B) → M B
  continue (done a) f s = f a s
  continue failed f s = (failed, s)
  continue panicked f s = (panicked, s)
  continue out_of_fuel f s = (out_of_fuel, s)

  infixl 5 ◌>>=◌ ◌>>◌
  unfoldable pub ◌>>=◌ : M A → (A → M B) → M B
  ◌>>=◌ m f s = let (o, s') = m s in continue o f s'

  abbrev pub ◌>>◌ : M A → M B → M B
  m >> k = m >>= λ _. k

module _ {A : Type 0} where
  abbrev pub attempted : Outcome A → Outcome (Option A)
  attempted (done a) = done (some a)
  attempted failed = done none
  attempted panicked = panicked
  attempted out_of_fuel = out_of_fuel

  -- For a caller that matches on `Err(())` and goes on.
  unfoldable pub attempt : M A → M (Option A)
  attempt m s = let (o, s') = m s in (attempted o, s')

abbrev pub kind : Option (Spanned Token) → Option Token
kind none = none
kind (some (t, span)) = some t

abbrev pub current : Parser → Option (Spanned Token)
current s = get_elem? s.tokens s.position

unfoldable pub peek : M (Option Token)
peek s = (done (kind (current s)), s)

-- The end of the last token, `eof_offset`.
abbrev pub last_end : List (Spanned Token) → ℕ
last_end [] = 0
last_end ((t, span) ∷ []) = span.end
last_end (t ∷ u ∷ ts) = last_end (u ∷ ts)

abbrev pub span_or_end : Option (Spanned Token) → List (Spanned Token) → Span
span_or_end none tokens = record { start = last_end tokens; end = last_end tokens }
span_or_end (some (t, span)) tokens = span

unfoldable pub error : Message → M (Unit {0})
error message s = (
  done tt,
  record s {
    errors = s.errors ++ record { message = message; span = span_or_end (current s) s.tokens } ∷ [];
  },
)

-- `self.error(…); return Err(())`
module _ {A : Type 0} where
  unfoldable pub fail : Message → M A
  unfolding error
  fail message s = (failed, (error message s).1)

-- `self.pos += 1`.
unfoldable pub skip : M (Unit {0})
skip s = (done tt, record s { position = s.position + 1 })

abbrev pub indexed : Option (Spanned Token) → M (Spanned Token)
indexed none s = (panicked, s)
indexed (some t) s = (done t, record s { position = s.position + 1 })

-- `&self.tokens[self.pos]` panics past the end.
unfoldable pub advance : M (Spanned Token)
advance s = indexed (current s) s

-- Rounds that are enough for any loop from here on: each consumes a token.
unfoldable pub budget : M ℕ
budget s = (done (suc (length s.tokens - s.position)), s)
