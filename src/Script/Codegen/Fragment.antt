-- ===== src/Script/Codegen/Fragment.antt =====
-- The conditions for which crates/aether-script/src/codegen.rs emits code.
use aether_terminal.Prelude.{ℕ, ◌↔◌}
use aether_terminal.Script.Ast.{
  CmpOp, Literal, int, float, percent, Expr, field_access, literal, Condition, comparison,
}
use aether_terminal.Script.Codegen.{
  Ty, i8, i32, i64, f32, Value, load, Result, ok, err, ◌>>=◌, left_field, right_literal,
  emit_literal_cmp, emit_condition,
}

abbrev pub IsOk {ℓ} : {A : Type ℓ} → Result A → Type 0
IsOk (ok a) = Unit
IsOk (err e) = ⊥

-- The literals that a field of a machine type compares with.
abbrev pub Fits : Ty → Literal → Type 0
Fits i32 (int n) = Unit
Fits i64 (int n) = Unit
Fits f32 (float x) = Unit
Fits f32 (percent x) = Unit
Fits _ _ = ⊥

abbrev pub PlaceFits : Result (ℕ × Ty) → Expr → Type 0
PlaceFits (ok (offset, ty)) (literal lit) = Fits ty lit
PlaceFits _ _ = ⊥

-- Each comparison has a field on its left and a fitting literal on its right.
abbrev pub IsCompilable : Condition → Type 0
IsCompilable (comparison left op right) = PlaceFits (left_field left) right
IsCompilable (Condition.duration c seconds) = IsCompilable c
IsCompilable (Condition.and l r) = IsCompilable l × IsCompilable r
IsCompilable (Condition.or l r) = IsCompilable l × IsCompilable r
IsCompilable (Condition.not c) = IsCompilable c

literal-IsOk :
    (loaded : Value) (ty : Ty) (op : CmpOp) (lit : Literal)
    → IsOk (emit_literal_cmp loaded ty op lit) ↔ Fits ty lit
unfolding emit_literal_cmp
literal-IsOk loaded i8 op (int n) = (λ h. h, λ h. h)
literal-IsOk loaded i32 op (int n) = (λ h. h, λ h. h)
literal-IsOk loaded i64 op (int n) = (λ h. h, λ h. h)
literal-IsOk loaded f32 op (int n) = (λ h. h, λ h. h)
literal-IsOk loaded i8 op (float n) = (λ h. h, λ h. h)
literal-IsOk loaded i32 op (float n) = (λ h. h, λ h. h)
literal-IsOk loaded i64 op (float n) = (λ h. h, λ h. h)
literal-IsOk loaded f32 op (float n) = (λ h. h, λ h. h)
literal-IsOk loaded i8 op (percent n) = (λ h. h, λ h. h)
literal-IsOk loaded i32 op (percent n) = (λ h. h, λ h. h)
literal-IsOk loaded i64 op (percent n) = (λ h. h, λ h. h)
literal-IsOk loaded f32 op (percent n) = (λ h. h, λ h. h)
literal-IsOk loaded i8 op _ = (λ h. h, λ h. h)
literal-IsOk loaded i32 op _ = (λ h. h, λ h. h)
literal-IsOk loaded i64 op _ = (λ h. h, λ h. h)
literal-IsOk loaded f32 op _ = (λ h. h, λ h. h)

comparison-IsOk :
    (place : Result (ℕ × Ty)) (op : CmpOp) (right : Expr)
    → IsOk (place >>= λ p. right_literal (load p.1 p.0) p.1 op right) ↔ PlaceFits place right
comparison-IsOk (err e) op right = (λ h. absurd h, λ h. absurd (no_place e right h))
  where
    no_place : (e : _) (right : Expr) → PlaceFits (err e) right → ⊥
    no_place e (literal lit) h = h
    no_place e (field_access o f) h = h
comparison-IsOk (ok (offset, ty)) op (literal lit) = literal-IsOk (load ty offset) ty op lit
comparison-IsOk (ok (offset, ty)) op (field_access o f) = (λ h. h, λ h. h)

module _ {A : Type 0} where
  both-IsOk :
      (r : Result A) (s : Result A) (join : A → A → A)
      → IsOk (r >>= λ a. s >>= λ b. ok (join a b)) ↔ (IsOk r × IsOk s)
  both-IsOk (err e) s join = (λ h. absurd h, λ h. h.0)
  both-IsOk (ok a) (err e) join = (λ h. absurd h, λ h. h.1)
  both-IsOk (ok a) (ok b) join = (λ h. (tt, tt), λ h. tt)

then-IsOk : {A : Type 0} (r : Result A) (f : A → A) → IsOk (r >>= λ a. ok (f a)) ↔ IsOk r
then-IsOk (err e) f = (λ h. h, λ h. h)
then-IsOk (ok a) f = (λ h. h, λ h. h)

-- By the place that `resolve_field` gives; Script/Codegen/Compilable has it by the fields' names.
pub emit_condition-IsOk_iff : (c : Condition) → IsOk (emit_condition c) ↔ IsCompilable c
unfolding emit_condition
emit_condition-IsOk_iff (comparison left op right) = comparison-IsOk (left_field left) op right
emit_condition-IsOk_iff (Condition.duration c seconds) = emit_condition-IsOk_iff c
emit_condition-IsOk_iff (Condition.not c) =
    let k = then-IsOk (emit_condition c) _ in
    let ih = emit_condition-IsOk_iff c in (λ h. ih.0 (k.0 h), λ h. k.1 (ih.1 h))
emit_condition-IsOk_iff (Condition.and l r) =
    let k = both-IsOk (emit_condition l) (emit_condition r) _ in
    let p = emit_condition-IsOk_iff l in
    let q = emit_condition-IsOk_iff r in
    (λ h. (p.0 (k.0 h).0, q.0 (k.0 h).1), λ h. k.1 (p.1 h.0, q.1 h.1))
emit_condition-IsOk_iff (Condition.or l r) =
    let k = both-IsOk (emit_condition l) (emit_condition r) _ in
    let p = emit_condition-IsOk_iff l in
    let q = emit_condition-IsOk_iff r in
    (λ h. (p.0 (k.0 h).0, q.0 (k.0 h).1), λ h. k.1 (p.1 h.0, q.1 h.1))
