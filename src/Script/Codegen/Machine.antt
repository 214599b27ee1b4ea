-- ===== src/Script/Codegen/Machine.antt =====
-- What crates/aether-script/src/codegen.rs relies on of Cranelift: the meaning of the instructions
-- that it emits, as an interface, and the call of a compiled rule.
use aether_terminal.Prelude.{
  ℕ, ℤ, pos, ◌%◌, ◌≡◌, F64, Bool, true, false, not, ◌&&◌, ◌||◌, List, [], ◌∷◌, ◌==◌, if◌then◌else◌,
}
use aether_terminal.Script.Codegen.{
  Ty, i8, i32, IntCc, signed_greater_than, signed_less_than, signed_greater_than_or_equal,
  signed_less_than_or_equal, FloatCc, greater_than, less_than, greater_than_or_equal,
  less_than_or_equal, Value, load, iconst, f32const, icmp, fcmp, band, bor, bxor, uextend, select,
  Store, Function,
}

abbrev pub bit : Bool → ℕ
bit true = 1
bit false = 0

-- `State` is the memory behind the state pointer. A comparison leaves an `i8` that is 0 or 1,
-- and the bit operations on such values are those on truth values.
pub record Machine : Type 1 where
  pub State : Type 0
  pub Val : Type 0
  pub read : State → Ty → ℕ → Val
  pub constant : Ty → ℤ → Val
  pub float_constant : F64 → Val
  pub signed_lt : Val → Val → Bool
  pub int_same : Val → Val → Bool
  pub float_lt : Val → Val → Bool
  pub float_same : Val → Val → Bool
  pub truth : Bool → Val
  pub and_bits : Val → Val → Val
  pub or_bits : Val → Val → Val
  pub xor_bits : Val → Val → Val
  pub extend : Ty → Val → Val
  pub choose : Val → Val → Val → Val
  pub word : Val → ℕ
  pub truth-one : constant i8 (pos 1) ≡ truth true
  pub and-truth : (a b : Bool) → and_bits (truth a) (truth b) ≡ truth (a && b)
  pub or-truth : (a b : Bool) → or_bits (truth a) (truth b) ≡ truth (a || b)
  pub xor-one : (a : Bool) → xor_bits (truth a) (truth true) ≡ truth (not a)
  pub extend-truth : (a : Bool) → word (extend i32 (truth a)) ≡ bit a
  pub choose-truth : (a : Bool) (x y : Val) → choose (truth a) x y ≡ (if a then x else y)
  pub word-constant : (n : ℕ) → word (constant i32 (pos n)) ≡ n % 0x100000000

-- The result that a rule writes.
pub record RuleResult : Type 0 where
  pub matched : ℕ
  pub action_type : ℕ
  pub target_pid : ℕ
  pub severity : ℕ

module _ (m : Machine) where
  open m use {
    State, Val, read, constant, float_constant, signed_lt, int_same, float_lt, float_same, truth,
    and_bits, or_bits, xor_bits, extend, choose, word,
  }

  -- The condition codes.
  abbrev pub int_test : IntCc → Val → Val → Bool
  int_test signed_greater_than a b = signed_lt b a
  int_test signed_less_than a b = signed_lt a b
  int_test signed_greater_than_or_equal a b = not (signed_lt a b)
  int_test signed_less_than_or_equal a b = not (signed_lt b a)
  int_test IntCc.equal a b = int_same a b
  int_test IntCc.not_equal a b = not (int_same a b)

  -- A float comparison with a NaN is false, but for `not_equal`.
  abbrev pub float_test : FloatCc → Val → Val → Bool
  float_test greater_than a b = float_lt b a
  float_test less_than a b = float_lt a b
  float_test greater_than_or_equal a b = float_lt b a || float_same a b
  float_test less_than_or_equal a b = float_lt a b || float_same a b
  float_test FloatCc.equal a b = float_same a b
  float_test FloatCc.not_equal a b = not (float_same a b)

  unfoldable pub eval : State → Value → Val
  eval st (load ty offset) = read st ty offset
  eval st (iconst ty n) = constant ty n
  eval st (f32const x) = float_constant x
  eval st (icmp cc a b) = truth (int_test cc (eval st a) (eval st b))
  eval st (fcmp cc a b) = truth (float_test cc (eval st a) (eval st b))
  eval st (band a b) = and_bits (eval st a) (eval st b)
  eval st (bor a b) = or_bits (eval st a) (eval st b)
  eval st (bxor a b) = xor_bits (eval st a) (eval st b)
  eval st (uextend ty a) = extend ty (eval st a)
  eval st (select c a b) = choose (eval st c) (eval st a) (eval st b)

  -- A store at a field's offset in `RuleResult`.
  abbrev pub write : ℕ → ℕ → RuleResult → RuleResult
  write offset v r =
      if offset == 0
      then record r { matched = v }
      else if offset == 4
      then record r { action_type = v }
      else if offset == 8
      then record r { target_pid = v }
      else if offset == 12
      then record r { severity = v }
      else r

  abbrev pub run_stores : State → List Store → RuleResult → RuleResult
  run_stores st [] r = r
  run_stores st (s ∷ stores) r = run_stores st stores (write s.offset (word (eval st s.value)) r)

  -- `CompiledRule::call`: the result starts as zeros.
  unfoldable pub call : Function → State → RuleResult
  unfolding eval
  call func st =
      run_stores st func.stores
        (record { matched = 0; action_type = 0; target_pid = 0; severity = 0 })
