-- ===== src/Script/Samples.antt =====
-- Sample data for the rule language (crates/aether-script/src): a machine whose values are numbers,
-- and a rule with its tokens.
use aether_terminal.Prelude.{
  ℕ, ◌+◌, ◌-◌, ◌*◌, ◌%◌, ◌≡◌, refl, Bool, true, false, List, [], ◌∷◌, ltb, ◌==◌, if◌then◌else◌, F64,
  string_eq, ℤ, pos, negsuc, not, max, ◌&&◌, ◌||◌,
}
use aether_terminal.Script.Token.{Token, Spanned}
use aether_terminal.Script.Ast.{
  CmpOp, Literal, field_access, literal, Condition, comparison, Action, Rule,
}
use aether_terminal.Script.Codegen.Machine.{Machine, bit}

-- Memory gives the number at an offset; a truth value is its bit; the floats are positive, so that
-- their patterns are in their order.
abbrev choose_bit : ℕ → ℕ → ℕ → ℕ
choose_bit c x y = if c == 0 then y else x

abbrev two_complement : ℤ → ℕ
two_complement (pos n) = n
two_complement (negsuc n) = 0xffffffffffffffff - n

pub and-bit : (a b : Bool) → bit a * bit b ≡ bit (a && b)
and-bit true true = refl
and-bit true false = refl
and-bit false true = refl
and-bit false false = refl

pub or-bit : (a b : Bool) → max (bit a) (bit b) ≡ bit (a || b)
or-bit true true = refl
or-bit true false = refl
or-bit false true = refl
or-bit false false = refl

pub xor-bit : (a : Bool) → (bit a + 1) % 2 ≡ bit (not a)
xor-bit true = refl
xor-bit false = refl

pub extend-bit : (a : Bool) → bit a % 0x100000000 ≡ bit a
extend-bit true = refl
extend-bit false = refl

pub choose-bit : (a : Bool) (x y : ℕ) → choose_bit (bit a) x y ≡ (if a then x else y)
choose-bit true x y = refl
choose-bit false x y = refl

abbrev pub test_machine : Machine
test_machine = record {
  State = ℕ → ℕ;
  Val = ℕ;
  read = λ st ty offset. st offset;
  constant = λ ty n. two_complement n;
  float_constant = λ x. x;
  signed_lt = ltb;
  int_same = ◌==◌;
  float_lt = ltb;
  float_same = ◌==◌;
  truth = bit;
  and_bits = ◌*◌;
  or_bits = max;
  xor_bits = λ a b. (a + b) % 2;
  extend = λ ty a. a;
  choose = choose_bit;
  word = λ v. v % 0x100000000;
  truth-one = refl;
  and-truth = and-bit;
  or-truth = or-bit;
  xor-one = xor-bit;
  extend-truth = extend-bit;
  choose-truth = choose-bit;
  word-constant = λ n. refl;
}

abbrev at_start : Token → Spanned Token
at_start t = (t, record { start = 0; end = 0 })

abbrev spread : List Token → List (Spanned Token)
spread [] = []
spread (t ∷ ts) = at_start t ∷ spread ts

-- The patterns of 90.0 and 95.0.
abbrev pub ninety : F64
ninety = 0x4056800000000000

abbrev pub ninety_five : F64
ninety_five = 0x4057c00000000000

-- `rule hot { when process.cpu > 90% for 5s then kill }`.
abbrev pub hot_tokens : List (Spanned Token)
hot_tokens = spread (
    Token.rule
    ∷ Token.ident "hot"
    ∷ Token.l_brace
    ∷ Token.when
    ∷ Token.process
    ∷ Token.dot
    ∷ Token.ident "cpu"
    ∷ Token.gt
    ∷ Token.percent ninety
    ∷ Token.for
    ∷ Token.duration 5
    ∷ Token.then_
    ∷ Token.kill
    ∷ Token.r_brace
    ∷ [])

-- The same without its `when`, between a good rule before it and one after it.
abbrev pub broken_tokens : List (Spanned Token)
broken_tokens = spread (
    Token.rule ∷ Token.ident "bad" ∷ Token.l_brace ∷ Token.process ∷ Token.dot ∷ Token.r_brace ∷ [])

abbrev pub above_ninety : Condition
above_ninety = comparison (field_access "process" "cpu") CmpOp.gt (literal (Literal.percent ninety))

abbrev pub hot_rule : Rule
hot_rule = record {
  name = "hot";
  condition = Condition.duration above_ninety 5;
  actions = Action.kill ∷ [];
  span = record { start = 0; end = 0 };
}
