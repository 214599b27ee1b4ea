-- ===== src/Script/Ast.antt =====
-- The syntax trees of crates/aether-script/src/ast.rs.
use aether_terminal.Prelude.{ℕ, String, ℤ, F64, List, Option, none, some}
use aether_terminal.Script.Token.{Span}

pub data CmpOp : Type 0 where
  gt lt gte lte eq neq : CmpOp

pub data Literal : Type 0 where
  int : ℤ → Literal
  float : F64 → Literal
  percent : F64 → Literal
  duration : ℕ → Literal
  str : String → Literal

pub data Expr : Type 0 where
  field_access : String → String → Expr
  literal : Literal → Expr

pub data Condition : Type 0 where
  comparison : Expr → CmpOp → Expr → Condition
  duration : Condition → ℕ → Condition
  and : Condition → Condition → Condition
  or : Condition → Condition → Condition
  not : Condition → Condition

pub data Severity : Type 0 where
  info warning critical : Severity

-- `as_i64`.
unfoldable pub as_i64 : Severity → ℕ
as_i64 info = 0
as_i64 warning = 1
as_i64 critical = 2

pub data Action : Type 0 where
  alert : String → Severity → Action
  kill : Action
  log : String → Action

pub record Rule : Type 0 where
  pub name : String
  pub condition : Condition
  pub actions : List Action
  pub span : Span

-- The seconds of a top-level duration.
abbrev pub condition_secs : Condition → Option ℕ
condition_secs (Condition.duration c seconds) = some seconds
condition_secs _ = none

unfoldable pub duration_secs : Rule → Option ℕ
duration_secs r = condition_secs r.condition

-- The condition below a top-level duration.
abbrev pub unwrapped : Condition → Condition
unwrapped (Condition.duration c seconds) = c
unwrapped c = c

unfoldable pub eval_condition : Rule → Condition
eval_condition r = unwrapped r.condition

pub record RuleFile : Type 0 where
  pub rules : List Rule
