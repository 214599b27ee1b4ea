-- ===== src/Script/Parser.antt =====
-- The recursive descent parser of crates/aether-script/src/parser.rs. A method of `Parser` is an
-- action on its state; `Err(())` is `failed`, and the state comes back beside it. A message is a
-- constructor that holds what the source formats into the text. Each loop, and the recursion of
-- `parse_not`, has as many rounds as tokens are left, and one more.
pub mod Monad
pub mod Sound
pub mod Pieces
pub mod Conditions
pub mod Rules
pub mod Rounds
pub mod Total
use aether_terminal.Prelude.{
  ℕ, suc, zero, String, Bool, true, false, Option, none, some, List, [], ◌∷◌, ◌++◌, str_eq,
}
use aether_terminal.Script.Token
use aether_terminal.Script.Token.{
  Token, Span, Spanned, rule, when, then_, for, and, or, alert, kill, log, severity, process,
  l_brace, r_brace, dot, ident, string_lit, token_eq,
}
use aether_terminal.Script.Ast.{
  CmpOp, Literal, Expr, field_access, literal, Condition, comparison, Severity, Action, Rule,
  RuleFile,
}
use Monad.{
  M, Message, Parser, ParseError, Outcome, done, failed, panicked, out_of_fuel, pure, panic, ◌>>=◌,
  ◌>>◌, attempt, peek, advance, fail, skip, budget, exhausted, expected_token, expected_rule_name,
  expected_duration, expected_operator, expected_field, expected_expression, expected_action,
  expected_severity, expected_string, expected_dot_after, expected_an_action,
}

-- `self.peek() == Some(expected)`.
abbrev pub peeked_is : Token → Option Token → Bool
peeked_is expected none = false
peeked_is expected (some t) = token_eq t expected

abbrev pub span_of : Spanned Token → Span
span_of (tok, span) = span

abbrev pub expect_at : Token → Option Token → M Span
expect_at expected t = elim (peeked_is expected t) [
  | true ↦ advance >>= λ tok. pure (span_of tok)
  | false ↦ fail (expected_token expected t)
]

unfoldable pub expect : Token → M Span
expect expected = peek >>= expect_at expected

-- What `advance` returned after a `peek`; the last clause is `unreachable!()`.
abbrev pub as_ident : Spanned Token → M String
as_ident (ident name, span) = pure name
as_ident _ = panic

abbrev pub as_string : Spanned Token → M String
as_string (string_lit s, span) = pure s
as_string _ = panic

abbrev pub as_duration : Spanned Token → M ℕ
as_duration (Token.duration secs, span) = pure secs
as_duration _ = panic

abbrev pub ident_at : (Option Token → Message) → Option Token → M String
ident_at message (some (ident _)) = advance >>= as_ident
ident_at message t = fail (message t)

unfoldable pub expect_ident : (Option Token → Message) → M String
expect_ident message = peek >>= ident_at message

abbrev pub string_at : String → Option Token → M String
string_at context (some (string_lit _)) = advance >>= as_string
string_at context t = fail (expected_string context t)

unfoldable pub expect_string : String → M String
expect_string context = peek >>= string_at context

abbrev pub severity_at : Option Token → M Severity
severity_at (some Token.info) = advance >> pure Severity.info
severity_at (some Token.warning) = advance >> pure Severity.warning
severity_at (some Token.critical) = advance >> pure Severity.critical
severity_at t = fail (expected_severity t)

unfoldable pub parse_severity : M Severity
parse_severity = peek >>= severity_at

abbrev pub action_at : Option Token → M Action
action_at (some alert) = do
  advance
  message ← expect_string "alert message"
  expect severity
  level ← parse_severity
  pure (Action.alert message level)
action_at (some kill) = advance >> pure Action.kill
action_at (some log) = do advance; message ← expect_string "log message"; pure (Action.log message)
action_at t = fail (expected_action t)

unfoldable pub parse_action : M Action
parse_action = peek >>= action_at

abbrev pub as_literal : Spanned Token → M Expr
as_literal (Token.integer n, span) = pure (literal (Literal.int n))
as_literal (Token.float x, span) = pure (literal (Literal.float x))
as_literal (Token.percent x, span) = pure (literal (Literal.percent x))
as_literal (Token.duration n, span) = pure (literal (Literal.duration n))
as_literal (string_lit s, span) = pure (literal (Literal.str s))
as_literal _ = panic

abbrev pub after_object : String → Option Token → M Expr
after_object object t = elim (peeked_is dot t) [
  | true ↦ (do advance; field ← expect_ident expected_field; pure (field_access object field))
  | false ↦ fail (expected_dot_after object)
]

abbrev pub expr_at : Option Token → M Expr
expr_at (some process) = do
  advance
  expect dot
  field ← expect_ident expected_field
  pure (field_access "process" field)
expr_at (some (ident _)) = do tok ← advance; object ← as_ident tok; t ← peek; after_object object t
expr_at (some (Token.integer _)) = advance >>= as_literal
expr_at (some (Token.float _)) = advance >>= as_literal
expr_at (some (Token.percent _)) = advance >>= as_literal
expr_at (some (Token.duration _)) = advance >>= as_literal
expr_at (some (string_lit _)) = advance >>= as_literal
expr_at t = fail (expected_expression t)

unfoldable pub parse_expr : M Expr
parse_expr = peek >>= expr_at

abbrev pub operator_at : Option Token → M CmpOp
operator_at (some Token.gt) = advance >> pure CmpOp.gt
operator_at (some Token.lt) = advance >> pure CmpOp.lt
operator_at (some Token.gte) = advance >> pure CmpOp.gte
operator_at (some Token.lte) = advance >> pure CmpOp.lte
operator_at (some Token.eq) = advance >> pure CmpOp.eq
operator_at (some Token.neq) = advance >> pure CmpOp.neq
operator_at t = fail (expected_operator t)

unfoldable pub parse_cmp_op : M CmpOp
parse_cmp_op = peek >>= operator_at

unfoldable pub parse_comparison : M Condition
parse_comparison = do
  left ← parse_expr
  op ← parse_cmp_op
  right ← parse_expr
  pure (comparison left op right)

abbrev pub is_not : Option Token → Bool
is_not (some (ident s)) = str_eq s "not"
is_not _ = false

unfoldable pub not_loop : ℕ → M Condition
not_loop zero = exhausted
not_loop (suc n) = do
  t ← peek
  elim (is_not t) [
    | true ↦ (do advance; inner ← not_loop n; pure (Condition.not inner))
    | false ↦ parse_comparison
  ]

unfoldable pub parse_not : M Condition
parse_not = budget >>= not_loop

unfoldable pub and_loop : ℕ → Condition → M Condition
and_loop zero left = exhausted
and_loop (suc n) left = do
  t ← peek
  elim (peeked_is and t) [
    | true ↦ (do advance; right ← parse_not; and_loop n (Condition.and left right))
    | false ↦ pure left
  ]

unfoldable pub parse_and : M Condition
parse_and = do left ← parse_not; rounds ← budget; and_loop rounds left

unfoldable pub or_loop : ℕ → Condition → M Condition
or_loop zero left = exhausted
or_loop (suc n) left = do
  t ← peek
  elim (peeked_is or t) [
    | true ↦ (do advance; right ← parse_and; or_loop n (Condition.or left right))
    | false ↦ pure left
  ]

unfoldable pub parse_or : M Condition
parse_or = do left ← parse_and; rounds ← budget; or_loop rounds left

abbrev pub duration_at : Option Token → M ℕ
duration_at (some (Token.duration _)) = advance >>= as_duration
duration_at t = fail (expected_duration t)

abbrev pub with_duration : Condition → Option Token → M Condition
with_duration cond t = elim (peeked_is for t) [
  | true ↦ (do advance; next ← peek; secs ← duration_at next; pure (Condition.duration cond secs))
  | false ↦ pure cond
]

unfoldable pub parse_condition : M Condition
parse_condition = do cond ← parse_or; t ← peek; with_duration cond t

abbrev pub starts_action : Option Token → Bool
starts_action (some alert) = true
starts_action (some kill) = true
starts_action (some log) = true
starts_action _ = false

unfoldable pub action_loop : ℕ → List Action → M (List Action)
action_loop zero actions = exhausted
action_loop (suc n) actions = do
  t ← peek
  elim (starts_action t) [
    | true ↦ (do a ← parse_action; action_loop n (actions ++ a ∷ []))
    | false ↦ pure actions
  ]

abbrev pub nonempty : List Action → M (List Action)
nonempty [] = fail expected_an_action
nonempty (a ∷ actions) = pure (a ∷ actions)

unfoldable pub parse_rule : M Rule
parse_rule = do
  start_span ← expect rule
  name ← expect_ident expected_rule_name
  expect l_brace
  expect when
  condition ← parse_condition
  expect then_
  rounds ← budget
  found ← action_loop rounds []
  actions ← nonempty found
  end_span ← expect r_brace
  pure (record {
    name = name;
    condition = condition;
    actions = actions;
    span = record { start = start_span.start; end = end_span.end };
  })

-- The loop goes on at a token that is not `rule`.
abbrev pub stops_recovery : Option Token → Bool
stops_recovery none = true
stops_recovery (some rule) = true
stops_recovery (some _) = false

unfoldable pub recovery_loop : ℕ → M (Unit {0})
recovery_loop zero = exhausted
recovery_loop (suc n) = do
  t ← peek
  elim (stops_recovery t) [ true ↦ pure tt | false ↦ skip >> recovery_loop n ]

unfoldable pub recover_to_rule : M (Unit {0})
recover_to_rule = budget >>= recovery_loop

unfoldable pub file_loop : ℕ → List Rule → M (List Rule)
file_loop zero rules = exhausted
file_loop (suc n) rules = do
  t ← peek
  elim t [
    | none ↦ pure rules
    | some _ ↦ (do
      parsed ← attempt parse_rule
      elim parsed [
        | some r ↦ file_loop n (rules ++ r ∷ [])
        | none ↦ recover_to_rule >> file_loop n rules
      ])
  ]

unfoldable pub parse_rule_file : M (List Rule)
parse_rule_file = do rounds ← budget; file_loop rounds []

pub data Parsed : Type 0 where
  ok : RuleFile → Parsed
  err : List ParseError → Parsed
  crashed : Parsed

abbrev pub finish_ok : List Rule → List ParseError → Parsed
finish_ok rules [] = ok (record { rules = rules })
finish_ok rules (e ∷ es) = err (e ∷ es)

abbrev pub finish : Outcome (List Rule) → List ParseError → Parsed
finish (done rules) errors = finish_ok rules errors
finish _ errors = crashed

abbrev pub start : List (Spanned Token) → Parser
start tokens = record { tokens = tokens; position = 0; errors = [] }

unfoldable pub parse : List (Spanned Token) → Parsed
parse tokens = let (o, s) = parse_rule_file (start tokens) in finish o s.errors
