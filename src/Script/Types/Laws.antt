-- ===== src/Script/Types/Laws.antt =====
-- The type checker of crates/aether-script/src/types.rs against the typing rules of conditions.
use aether_terminal.Prelude.{
  ◌≡◌, refl, ◌≢◌, ◌↔◌, ◌⊎◌, inl, inr, ap, false, List, [], ◌∷◌, ◌++◌, arith, str_eq_iff,
}
use aether_terminal.Script.Ast.{CmpOp, Condition, comparison, Action, Rule, RuleFile}
use aether_terminal.Script.Types.{
  AetherType, percent, int, float, duration, TypeError, TypeEnv, Resolved, with_builtins,
  resolve_expr, is_ordered, compare_types, compare_resolved, check_comparison, check_condition,
  check_action, check_actions, check_rule, check_rules, check, Checked, verdict,
}

-- The numbers that compare with one another.
abbrev pub IsPlainNumber : AetherType → Type 0
IsPlainNumber percent = Unit
IsPlainNumber int = Unit
IsPlainNumber float = Unit
IsPlainNumber _ = ⊥

abbrev pub IsComparable : AetherType → AetherType → Type 0
IsComparable t u = (t ≡ u) ⊎ (IsPlainNumber t × IsPlainNumber u)

-- An order needs a number on its left.
abbrev pub IsOrderable : CmpOp → AetherType → Type 0
IsOrderable op t = (is_ordered op ≡ false) ⊎ (IsPlainNumber t ⊎ (t ≡ duration))

module _ (env : TypeEnv) where
  abbrev pub IsTyped : Condition → Type 0
  IsTyped (comparison left op right) =
      (t : AetherType) × (u : AetherType) × (resolve_expr env left ≡ Resolved.ok t)
      × (resolve_expr env right ≡ Resolved.ok u)
      × IsOrderable op t
      × IsComparable t u
  IsTyped (Condition.duration c seconds) = IsTyped c
  IsTyped (Condition.and l r) = IsTyped l × IsTyped r
  IsTyped (Condition.or l r) = IsTyped l × IsTyped r
  IsTyped (Condition.not c) = IsTyped c

abbrev pub HasMessage : Action → Type 0
HasMessage (Action.alert message severity) = message ≢ ""
HasMessage (Action.log message) = message ≢ ""
HasMessage Action.kill = Unit

abbrev pub AllHaveMessage : List Action → Type 0
AllHaveMessage [] = Unit
AllHaveMessage (a ∷ actions) = HasMessage a × AllHaveMessage actions

abbrev pub AllTyped : TypeEnv → List Rule → Type 0
AllTyped env [] = Unit
AllTyped env (r ∷ rules) = IsTyped env r.condition × AllHaveMessage r.actions × AllTyped env rules

compare_types-nil :
    (t u : AetherType) (op : CmpOp)
    → compare_types t op u ≡ [] ↔ (IsOrderable op t × IsComparable t u)
unfolding compare_types
compare_types-nil t u op = ground arith

resolve-cases :
    (r : Resolved)
    → ((t : AetherType) × (r ≡ Resolved.ok t)) ⊎ ((e : TypeError) × (r ≡ Resolved.err e))
resolve-cases (Resolved.ok t) = inl (t, refl)
resolve-cases (Resolved.err e) = inr (e, refl)

compare_resolved-nil :
    (r s : Resolved) (op : CmpOp)
    → compare_resolved r op s ≡ [] ↔ (
        (t : AetherType) × (u : AetherType) × (r ≡ Resolved.ok t)
        × (s ≡ Resolved.ok u)
        × IsOrderable op t
        × IsComparable t u)
compare_resolved-nil (Resolved.err e) s op = (λ h. cc, λ h. cc (h.2))
compare_resolved-nil (Resolved.ok t) (Resolved.err e) op = (λ h. cc, λ h. cc (h.3))
compare_resolved-nil (Resolved.ok t) (Resolved.ok u) op = (
  (λ h. let k = (compare_types-nil t u op).0 h in (t, u, refl, refl, k.0, k.1)),
  λ h. (compare_types-nil t u op).1 (ground (arith, h.2, h.3, h.4, h.5)),
)

append-nil_iff {ℓ} : {A : Type ℓ} (xs ys : List A) → xs ++ ys ≡ [] ↔ ((xs ≡ []) × (ys ≡ []))
append-nil_iff [] ys = (λ h. (refl, h), λ h. h.1)
append-nil_iff (x ∷ xs) ys = (λ h. cc, λ h. cc (h.0))

module _ (env : TypeEnv) where
  check_condition-nil :
      (c : Condition) (errors : List TypeError)
      → check_condition env c errors ≡ [] ↔ ((errors ≡ []) × IsTyped env c)
  unfolding check_condition check_comparison
  check_condition-nil (comparison left op right) errors =
      let a =
        append-nil_iff errors
          (compare_resolved (resolve_expr env left) op (resolve_expr env right)) in
      let k = compare_resolved-nil (resolve_expr env left) (resolve_expr env right) op in
      (λ h. ((a.0 h).0, k.0 (a.0 h).1), λ h. a.1 (h.0, k.1 h.1))
  check_condition-nil (Condition.duration c seconds) errors = check_condition-nil c errors
  check_condition-nil (Condition.not c) errors = check_condition-nil c errors
  check_condition-nil (Condition.and l r) errors =
      let a = check_condition-nil l errors in
      let b = check_condition-nil r (check_condition env l errors) in
      (λ h. ((a.0 (b.0 h).0).0, ((a.0 (b.0 h).0).1, (b.0 h).1)), λ h. b.1 (a.1 (h.0, h.1.0), h.1.1))
  check_condition-nil (Condition.or l r) errors =
      let a = check_condition-nil l errors in
      let b = check_condition-nil r (check_condition env l errors) in
      (λ h. ((a.0 (b.0 h).0).0, ((a.0 (b.0 h).0).1, (b.0 h).1)), λ h. b.1 (a.1 (h.0, h.1.0), h.1.1))

check_action-nil :
    (a : Action) (errors : List TypeError)
    → check_action a errors ≡ [] ↔ ((errors ≡ []) × HasMessage a)
unfolding check_action
check_action-nil (Action.alert message severity) errors =
    ground (arith, str_eq_iff message "", append-nil_iff errors (TypeError.empty_alert ∷ []))
check_action-nil (Action.log message) errors =
    ground (arith, str_eq_iff message "", append-nil_iff errors (TypeError.empty_log ∷ []))
check_action-nil Action.kill errors = (λ h. (h, tt), λ h. h.0)

check_actions-nil :
    (acts : List Action) (errors : List TypeError)
    → check_actions acts errors ≡ [] ↔ ((errors ≡ []) × AllHaveMessage acts)
unfolding check_actions
check_actions-nil [] errors = (λ h. (h, tt), λ h. h.0)
check_actions-nil (a ∷ acts) errors =
    let p = check_action-nil a errors in
    let q = check_actions-nil acts (check_action a errors) in
    (λ h. ((p.0 (q.0 h).0).0, ((p.0 (q.0 h).0).1, (q.0 h).1)), λ h. q.1 (p.1 (h.0, h.1.0), h.1.1))

check_rules-nil :
    (env : TypeEnv) (rules : List Rule) (errors : List TypeError)
    → check_rules env rules errors ≡ [] ↔ ((errors ≡ []) × AllTyped env rules)
unfolding check_rules check_rule
check_rules-nil env [] errors = (λ h. (h, tt), λ h. h.0)
check_rules-nil env (r ∷ rules) errors =
    let c = check_condition-nil env r.condition errors in
    let p = check_actions-nil r.actions (check_condition env r.condition errors) in
    let q = check_rules-nil env rules (check_rule env r errors) in
    (
      λ h. let e = p.0 (q.0 h).0 in let d = c.0 e.0 in (d.0, (d.1, e.1, (q.0 h).1)),
      λ h. q.1 (p.1 (c.1 (h.0, h.1.0), h.1.1), h.1.2),
    )

-- `check` accepts a file exactly when every comparison of every rule has typed sides that compare
-- and, for an order, a number on the left, and no alert or log message is empty.
pub check-ok_iff : (file : RuleFile) → check file ≡ Checked.ok ↔ AllTyped with_builtins file.rules
unfolding check
check-ok_iff file = (
  λ h. ((check_rules-nil with_builtins file.rules []).0 (verdict-ok _ h)).1,
  λ h. ap verdict ((check_rules-nil with_builtins file.rules []).1 (refl, h)),
)
  where
    verdict-ok : (es : List TypeError) → verdict es ≡ Checked.ok → es ≡ []
    verdict-ok [] h = refl
    verdict-ok (e ∷ es) h = cc
