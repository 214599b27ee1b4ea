-- ===== src/Script/Codegen.antt =====
-- The code generator of crates/aether-script/src/codegen.rs. What the calls of Cranelift's builder
-- make is a tree of instructions; Cranelift itself is a parameter (Codegen/Machine).
pub mod Machine
pub mod Correct
pub mod Fragment
pub mod Fields
pub mod Compilable
pub mod Accepted
pub mod Layout
use aether_terminal.Prelude.{
  ℕ, ℤ, pos, F64, String, Bool, true, false, List, [], ◌∷◌, Option, none, some, str_eq,
  if◌then◌else◌, ◌||◌,
}
use aether_terminal.Script.Ast.{
  CmpOp, gt, lt, gte, lte, eq, neq, Literal, int, float, percent, Expr, field_access, literal,
  Condition, comparison, Severity, as_i64, Action, Rule, eval_condition, duration_secs,
}

-- The Cranelift types that occur.
pub data Ty : Type 0 where
  i8 i32 i64 f32 : Ty

-- `Type`'s `==`.
abbrev pub ty_eq : Ty → Ty → Bool
ty_eq i8 i8 = true
ty_eq i32 i32 = true
ty_eq i64 i64 = true
ty_eq f32 f32 = true
ty_eq _ _ = false

pub data IntCc : Type 0 where
  signed_greater_than signed_less_than signed_greater_than_or_equal : IntCc
  signed_less_than_or_equal equal not_equal : IntCc

pub data FloatCc : Type 0 where
  greater_than less_than greater_than_or_equal less_than_or_equal equal not_equal : FloatCc

-- A value of the function under construction. `load` reads from the state pointer, and
-- `f32const x` is the constant `x as f32`.
pub data Value : Type 0 where
  load : Ty → ℕ → Value
  iconst : Ty → ℤ → Value
  f32const : F64 → Value
  icmp : IntCc → Value → Value → Value
  fcmp : FloatCc → Value → Value → Value
  band bor bxor : Value → Value → Value
  uextend : Ty → Value → Value
  select : Value → Value → Value → Value

-- `store` writes a value at an offset from the result pointer.
pub record Store : Type 0 where
  pub value : Value
  pub offset : ℕ

pub record Function : Type 0 where
  pub stores : List Store

pub data CompileError : Type 0 where
  unknown_object : String → CompileError
  unknown_field : String → String → CompileError
  left_not_field right_not_literal no_actions : CompileError
  mismatch : Ty → Literal → CompileError
  rejected : String → CompileError

pub data Result {ℓ} (A : Type ℓ) : Type ℓ where
  ok : A → Result A
  err : CompileError → Result A

infixl 5 ◌>>=◌
abbrev pub ◌>>=◌ {ℓ κ} : {A : Type ℓ} {B : Type κ} → Result A → (A → Result B) → Result B
ok a >>= f = f a
err e >>= f = err e

unfoldable pub resolve_field : String → String → Result (ℕ × Ty)
resolve_field object field =
    if str_eq object "process"
    then (if str_eq field "pid"
        then ok (0, i32)
        else if str_eq field "cpu" || str_eq field "cpu_percent"
        then ok (4, f32)
        else if str_eq field "mem" || str_eq field "mem_bytes"
        then ok (8, i64)
        else if str_eq field "mem_growth" || str_eq field "mem_growth_percent"
        then ok (16, f32)
        else if str_eq field "state"
        then ok (20, i32)
        else if str_eq field "hp"
        then ok (24, f32)
        else err (unknown_field object field))
    else err (unknown_object object)

unfoldable pub int_cc : CmpOp → IntCc
int_cc gt = signed_greater_than
int_cc lt = signed_less_than
int_cc gte = signed_greater_than_or_equal
int_cc lte = signed_less_than_or_equal
int_cc eq = IntCc.equal
int_cc neq = IntCc.not_equal

unfoldable pub float_cc : CmpOp → FloatCc
float_cc gt = greater_than
float_cc lt = less_than
float_cc gte = greater_than_or_equal
float_cc lte = less_than_or_equal
float_cc eq = FloatCc.equal
float_cc neq = FloatCc.not_equal

unfoldable pub emit_literal_cmp : Value → Ty → CmpOp → Literal → Result Value
unfolding int_cc float_cc
emit_literal_cmp loaded ty op (int n) =
    if ty_eq ty i32
    then ok (icmp (int_cc op) loaded (iconst i32 n))
    else if ty_eq ty i64
    then ok (icmp (int_cc op) loaded (iconst i64 n))
    else err (mismatch ty (int n))
emit_literal_cmp loaded ty op (float x) =
    if ty_eq ty f32
    then ok (fcmp (float_cc op) loaded (f32const x))
    else err (mismatch ty (float x))
emit_literal_cmp loaded ty op (percent x) =
    if ty_eq ty f32
    then ok (fcmp (float_cc op) loaded (f32const x))
    else err (mismatch ty (percent x))
emit_literal_cmp loaded ty op lit = err (mismatch ty lit)

abbrev pub left_field : Expr → Result (ℕ × Ty)
left_field (field_access object field) = resolve_field object field
left_field (literal lit) = err left_not_field

abbrev pub right_literal : Value → Ty → CmpOp → Expr → Result Value
right_literal loaded ty op (literal lit) = emit_literal_cmp loaded ty op lit
right_literal loaded ty op (field_access object field) = err right_not_literal

unfoldable pub emit_comparison : Expr → CmpOp → Expr → Result Value
emit_comparison left op right =
    left_field left >>= λ place. right_literal (load place.1 place.0) place.1 op right

unfoldable pub emit_condition : Condition → Result Value
unfolding emit_comparison
emit_condition (comparison left op right) = emit_comparison left op right
emit_condition (Condition.and l r) = do a ← emit_condition l; b ← emit_condition r; ok (band a b)
emit_condition (Condition.or l r) = do a ← emit_condition l; b ← emit_condition r; ok (bor a b)
emit_condition (Condition.not c) = do v ← emit_condition c; ok (bxor v (iconst i8 (pos 1)))
emit_condition (Condition.duration c seconds) = emit_condition c

unfoldable pub action_constants : Action → Value × Value
unfolding as_i64
action_constants (Action.alert message severity) =
    (iconst i32 (pos 1), iconst i32 (pos (as_i64 severity)))
action_constants Action.kill = (iconst i32 (pos 2), iconst i32 (pos 0))
action_constants (Action.log message) = (iconst i32 (pos 3), iconst i32 (pos 0))

unfoldable pub emit_return : Value → Action → Function
unfolding action_constants
emit_return matched action =
    let (action_val, severity_val) = action_constants action in
    let zero_val : Value = iconst i32 (pos 0) in
    record {
      stores =
          record { value = uextend i32 matched; offset = 0 }
          ∷ record { value = select matched action_val zero_val; offset = 4 }
          ∷ record { value = select matched (load i32 0) zero_val; offset = 8 }
          ∷ record { value = select matched severity_val zero_val; offset = 12 }
          ∷ [];
    }

abbrev pub first_action : List Action → Result Action
first_action [] = err no_actions
first_action (a ∷ actions) = ok a

-- `verify` is Cranelift's verifier: `none`, or what it rejects.
module _ (verify : Function → Option String) where
  abbrev pub verified : Function → Option String → Result Function
  verified func none = ok func
  verified func (some reason) = err (rejected reason)

  unfoldable pub generate_rule : Rule → Result Function
  generate_rule r = do
    matched ← emit_condition (eval_condition r)
    action ← first_action r.actions
    verified (emit_return matched action) (verify (emit_return matched action))
