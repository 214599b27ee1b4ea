-- ===== src/Script/Codegen/Correct.antt =====
-- The code of crates/aether-script/src/codegen.rs computes the condition of its rule.
use aether_terminal.Prelude.{
  F64, ℕ, ℤ, pos, ◌≡◌, refl, ap, ◌∙◌, String, Bool, true, false, not, ◌&&◌, ◌||◌, Option, none,
  some,
}
use aether_terminal.Script.Ast.{
  CmpOp, gt, lt, gte, lte, eq, neq, Literal, int, float, percent, duration, str, Expr, field_access,
  literal, Condition, comparison, Action, Rule, eval_condition, as_i64, Severity,
}
use aether_terminal.Script.Codegen.{
  Ty, i8, i32, i64, f32, Value, load, band, bor, bxor, iconst, Function, Result, ok, err, ◌>>=◌,
  emit_literal_cmp, left_field, right_literal, emit_condition, emit_return, first_action, verified,
  generate_rule, int_cc, float_cc, action_constants,
}
use aether_terminal.Script.Codegen.Machine.{Machine, RuleResult, eval, call, int_test, float_test}

module _ (m : Machine) where
  open m use {
    State, Val, read, constant, float_constant, signed_lt, int_same, float_lt, float_same, truth,
  }

  -- The operators of the rule language on integers and on floats.
  abbrev pub int_holds : CmpOp → Val → Val → Bool
  int_holds gt a b = signed_lt b a
  int_holds lt a b = signed_lt a b
  int_holds gte a b = not (signed_lt a b)
  int_holds lte a b = not (signed_lt b a)
  int_holds eq a b = int_same a b
  int_holds neq a b = not (int_same a b)

  abbrev pub float_holds : CmpOp → Val → Val → Bool
  float_holds gt a b = float_lt b a
  float_holds lt a b = float_lt a b
  float_holds gte a b = float_lt b a || float_same a b
  float_holds lte a b = float_lt a b || float_same a b
  float_holds eq a b = float_same a b
  float_holds neq a b = not (float_same a b)

  abbrev pub literal_holds : CmpOp → Ty → Val → Literal → Bool
  literal_holds op ty v (int n) = int_holds op v (constant ty n)
  literal_holds op ty v (float x) = float_holds op v (float_constant x)
  literal_holds op ty v (percent x) = float_holds op v (float_constant x)
  literal_holds op ty v _ = false

  abbrev pub place_holds : State → CmpOp → Result (ℕ × Ty) → Expr → Bool
  place_holds st op (ok (offset, ty)) (literal lit) = literal_holds op ty (read st ty offset) lit
  place_holds st op _ _ = false

  -- The meaning of a condition in a process state.
  unfoldable pub holds : State → Condition → Bool
  holds st (comparison left op right) = place_holds st op (left_field left) right
  holds st (Condition.duration c seconds) = holds st c
  holds st (Condition.and l r) = holds st l && holds st r
  holds st (Condition.or l r) = holds st l || holds st r
  holds st (Condition.not c) = not (holds st c)

  int_cc-test : (op : CmpOp) (a b : Val) → int_test m (int_cc op) a b ≡ int_holds op a b
  unfolding int_cc
  int_cc-test gt a b = refl
  int_cc-test _ a b = refl

  float_cc-test : (op : CmpOp) (a b : Val) → float_test m (float_cc op) a b ≡ float_holds op a b
  unfolding float_cc
  float_cc-test gt a b = refl
  float_cc-test _ a b = refl

  -- The value behind a successful emission is the truth of `b`.
  abbrev Computes : State → Result Value → Bool → Type 0
  Computes st (ok v) b = eval m st v ≡ truth b
  Computes st (err e) b = Unit

  eval-band :
      (st : State) (v w : Value) → eval m st (band v w) ≡ m.and_bits (eval m st v) (eval m st w)
  unfolding eval
  eval-band st v w = refl

  eval-bor :
      (st : State) (v w : Value) → eval m st (bor v w) ≡ m.or_bits (eval m st v) (eval m st w)
  unfolding eval
  eval-bor st v w = refl

  eval-flip :
      (st : State) (v : Value)
      → eval m st (bxor v (iconst i8 (pos 1))) ≡ m.xor_bits (eval m st v) (constant i8 (pos 1))
  unfolding eval
  eval-flip st v = refl

  int-Computes :
      (st : State) (op : CmpOp) (ty : Ty) (loaded : Value) (n : ℤ)
      → Computes st
          (emit_literal_cmp loaded ty op (int n))
          (int_holds op (eval m st loaded) (constant ty n))
  unfolding emit_literal_cmp eval
  int-Computes st op i32 loaded n = ap truth (int_cc-test op _ _)
  int-Computes st op i64 loaded n = ap truth (int_cc-test op _ _)
  int-Computes st op _ loaded n = tt

  float-Computes :
      (st : State) (op : CmpOp) (ty : Ty) (loaded : Value) (x : F64)
      → Computes st
          (emit_literal_cmp loaded ty op (float x))
          (float_holds op (eval m st loaded) (float_constant x))
        × Computes st
            (emit_literal_cmp loaded ty op (percent x))
            (float_holds op (eval m st loaded) (float_constant x))
  unfolding emit_literal_cmp eval
  float-Computes st op f32 loaded x =
      (ap truth (float_cc-test op _ _), ap truth (float_cc-test op _ _))
  float-Computes st op _ loaded x = (tt, tt)

  literal-Computes :
      (st : State) (op : CmpOp) (ty : Ty) (loaded : Value) (lit : Literal)
      → Computes st (emit_literal_cmp loaded ty op lit) (literal_holds op ty (eval m st loaded) lit)
  unfolding emit_literal_cmp
  literal-Computes st op ty loaded (int n) = int-Computes st op ty loaded n
  literal-Computes st op ty loaded (float x) = (float-Computes st op ty loaded x).0
  literal-Computes st op ty loaded (percent x) = (float-Computes st op ty loaded x).1
  literal-Computes st op ty loaded (duration n) = tt
  literal-Computes st op ty loaded (str text) = tt

  comparison-Computes :
      (st : State) (op : CmpOp) (place : Result (ℕ × Ty)) (right : Expr)
      → Computes st
          (place >>= λ p. right_literal (load p.1 p.0) p.1 op right)
          (place_holds st op place right)
  unfolding eval
  comparison-Computes st op (err e) right = tt
  comparison-Computes st op (ok (offset, ty)) (literal lit) =
      literal-Computes st op ty (load ty offset) lit
  comparison-Computes st op (ok (offset, ty)) (field_access object field) = tt

  both-Computes :
      (st : State) (join : Value → Value → Value) (op : Bool → Bool → Bool)
      → ((v w : Value) (a b : Bool)
          → eval m st v ≡ truth a
          → eval m st w ≡ truth b
          → eval m st (join v w) ≡ truth (op a b))
      → (r s : Result Value) (a b : Bool) → Computes st r a
      → Computes st s b
      → Computes st (r >>= λ v. s >>= λ w. ok (join v w)) (op a b)
  both-Computes st join op k (err e) s a b p q = tt
  both-Computes st join op k (ok v) (err e) a b p q = tt
  both-Computes st join op k (ok v) (ok w) a b p q = k v w a b p q

  not-Computes :
      (st : State) (r : Result Value) (a : Bool)
      → Computes st r a
      → Computes st (r >>= λ v. ok (bxor v (iconst i8 (pos 1)))) (not a)
  not-Computes st (err e) a p = tt
  not-Computes st (ok v) a p = cc (eval-flip st v, m.truth-one, m.xor-one a)

  condition-Computes : (st : State) (c : Condition) → Computes st (emit_condition c) (holds st c)
  unfolding emit_condition holds
  condition-Computes st (comparison left op right) =
      comparison-Computes st op (left_field left) right
  condition-Computes st (Condition.duration c seconds) = condition-Computes st c
  condition-Computes st (Condition.and l r) =
      both-Computes st band ◌&&◌ (λ v w a b p q. cc (eval-band st v w, m.and-truth a b)) _ _ _ _
        (condition-Computes st l) (condition-Computes st r)
  condition-Computes st (Condition.or l r) =
      both-Computes st bor ◌||◌ (λ v w a b p q. cc (eval-bor st v w, m.or-truth a b)) _ _ _ _
        (condition-Computes st l) (condition-Computes st r)
  condition-Computes st (Condition.not c) = not-Computes st _ _ (condition-Computes st c)

  -- What a rule should write: zeros, unless its condition holds.
  abbrev pub action_code : Action → ℕ
  action_code (Action.alert message severity) = 1
  action_code Action.kill = 2
  action_code (Action.log message) = 3

  abbrev pub severity_code : Action → ℕ
  severity_code (Action.alert message severity) = as_i64 severity
  severity_code _ = 0

  abbrev pub expected : State → Action → Bool → RuleResult
  expected st a true = record {
    matched = 1;
    action_type = action_code a;
    target_pid = m.word (read st i32 0);
    severity = severity_code a;
  }
  expected st a false = record { matched = 0; action_type = 0; target_pid = 0; severity = 0 }

  abbrev written : State → Action → Val → RuleResult
  written st a w = record {
    matched = m.word (m.extend i32 w);
    action_type = m.word (m.choose w (eval m st (action_constants a).0) (constant i32 (pos 0)));
    target_pid = m.word (m.choose w (read st i32 0) (constant i32 (pos 0)));
    severity = m.word (m.choose w (eval m st (action_constants a).1) (constant i32 (pos 0)));
  }

  call-written :
      (st : State) (v : Value) (a : Action)
      → call m (emit_return v a) st ≡ written st a (eval m st v)
  unfolding call emit_return
  call-written st v a = refl

  constants-word :
      (st : State) (a : Action)
      → (m.word (eval m st (action_constants a).0) ≡ action_code a)
        × (m.word (eval m st (action_constants a).1) ≡ severity_code a)
  unfolding action_constants as_i64 eval
  constants-word st (Action.alert message Severity.info) = (m.word-constant 1, m.word-constant 0)
  constants-word st (Action.alert message Severity.warning) = (m.word-constant 1, m.word-constant 1)
  constants-word st (Action.alert message Severity.critical) =
      (m.word-constant 1, m.word-constant 2)
  constants-word st Action.kill = (m.word-constant 2, m.word-constant 0)
  constants-word st (Action.log message) = (m.word-constant 3, m.word-constant 0)

  written-expected : (st : State) (a : Action) (b : Bool) → written st a (truth b) ≡ expected st a b
  written-expected st a true =
      simp (m.extend-truth, m.choose-truth, (constants-word st a).0, (constants-word st a).1)
  written-expected st a false = simp (m.extend-truth, m.choose-truth, m.word-constant)

  return-expected :
      (st : State) (v : Value) (a : Action) (b : Bool)
      → eval m st v ≡ truth b
      → call m (emit_return v a) st ≡ expected st a b
  return-expected st v a b h = call-written st v a ∙ ap (written st a) h ∙ written-expected st a b

  -- A rule that compiles writes its first action, the process id and the severity exactly when its
  -- condition, without a duration around it, holds of the state, and zeros otherwise.
  pub generate_rule-call :
      (verify : Function → Option String) (r : Rule) (st : State) {func : Function}
      → generate_rule verify r ≡ ok func
      → (a : Action) × (first_action r.actions ≡ ok a)
        × (call m func st ≡ expected st a (holds st (eval_condition r)))
  unfolding generate_rule
  generate_rule-call verify r st {func} h =
      go (emit_condition (eval_condition r)) (condition-Computes st (eval_condition r))
        (first_action r.actions) h
    where
      settle :
          (v : Value) (a : Action) (o : Option String)
          → verified verify (emit_return v a) o ≡ ok func
          → emit_return v a ≡ func
      settle v a none e = cc
      settle v a (some reason) e = cc

      go :
          (c : Result Value)
          → Computes st c (holds st (eval_condition r))
          → (f : Result Action)
          → (c >>= λ matched. f >>= λ action.
              verified verify (emit_return matched action) (verify (emit_return matched action)))
            ≡ ok func
          → (a : Action) × (f ≡ ok a)
            × (call m func st ≡ expected st a (holds st (eval_condition r)))
      go (err e) k f e' = cc
      go (ok v) k (err e) e' = cc
      go (ok v) k (ok a) e' = (a, refl, rw (← settle v a _ e') (return-expected st v a _ k))
