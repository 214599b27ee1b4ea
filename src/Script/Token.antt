-- ===== src/Script/Token.antt =====
-- The tokens of crates/aether-script/src/lexer.rs. The scanner itself is generated by `logos`.
use aether_terminal.Prelude.{
  ℕ, String, Bool, true, false, ◌&&◌, ◌==◌, str_eq, ℤ, pos, negsuc, F64, f64_eq,
}

-- Byte offsets in the source text.
pub record Span : Type 0 where
  pub start : ℕ
  pub end : ℕ

pub data Token : Type 0 where
  rule when then_ for and or alert kill log severity info warning critical process : Token
  gte lte eq neq gt lt : Token
  l_brace r_brace dot : Token
  percent : F64 → Token
  duration : ℕ → Token
  float : F64 → Token
  integer : ℤ → Token
  string_lit : String → Token
  ident : String → Token

abbrev pub Spanned : Type 0 → Type 0
Spanned T = T × Span

-- The position of a constructor in the declaration of the enum.
abbrev pub discriminant : Token → ℕ
discriminant rule = 0
discriminant when = 1
discriminant then_ = 2
discriminant for = 3
discriminant and = 4
discriminant or = 5
discriminant alert = 6
discriminant kill = 7
discriminant log = 8
discriminant severity = 9
discriminant info = 10
discriminant warning = 11
discriminant critical = 12
discriminant process = 13
discriminant gte = 14
discriminant lte = 15
discriminant eq = 16
discriminant neq = 17
discriminant gt = 18
discriminant lt = 19
discriminant l_brace = 20
discriminant r_brace = 21
discriminant dot = 22
discriminant (percent _) = 23
discriminant (duration _) = 24
discriminant (float _) = 25
discriminant (integer _) = 26
discriminant (string_lit _) = 27
discriminant (ident _) = 28

abbrev pub int_eq : ℤ → ℤ → Bool
int_eq (pos m) (pos n) = m == n
int_eq (negsuc m) (negsuc n) = m == n
int_eq _ _ = false

-- The payloads of two tokens with the same discriminant.
abbrev pub payload_eq : Token → Token → Bool
payload_eq (percent x) (percent y) = f64_eq x y
payload_eq (duration m) (duration n) = m == n
payload_eq (float x) (float y) = f64_eq x y
payload_eq (integer m) (integer n) = int_eq m n
payload_eq (string_lit s) (string_lit t) = str_eq s t
payload_eq (ident s) (ident t) = str_eq s t
payload_eq _ _ = true

-- The derived `PartialEq`.
unfoldable pub token_eq : Token → Token → Bool
token_eq s t = discriminant s == discriminant t && payload_eq s t
