-- ===== src/Prelude/Keys.antt =====
-- Equality tests as an interface, for the keys of maps.
use Prim.Native.Nat.{ℕ}
use Prim.Native.String.{String}
use mathlib.Core.Path.{◌≡◌}
use mathlib.Core.Logic.{◌↔◌}
use mathlib.Core.Bool.{Bool, true, ◌&&◌}
use native.Mathlib.Omega.{arith}
use text.Mathlib.Text.{◌==◌ as str_eq}
use text.Mathlib.TextEquality.{eq_iff}
use aether_terminal.Prelude.Tests.{◌==◌, ==_iff}

pub record Eq {ℓ} (A : Type ℓ) : Type ℓ where
  pub eqb : A → A → Bool
  pub eqb_iff : (a b : A) → (eqb a b ≡ true) ↔ (a ≡ b)

instance abbrev pub nat_eq : Eq ℕ
nat_eq = record { eqb = ◌==◌; eqb_iff = ==_iff }

instance abbrev pub string_eq : Eq String
string_eq = record { eqb = str_eq; eqb_iff = eq_iff }

abbrev pub pair_eqb : String × ℕ → String × ℕ → Bool
pair_eqb (a, m) (b, n) = str_eq a b && m == n

pub pair_eqb_iff : (p q : String × ℕ) → (pair_eqb p q ≡ true) ↔ (p ≡ q)
pair_eqb_iff (a, m) (b, n) = ground (arith, eq_iff a b)

instance abbrev pub pair_eq : Eq (String × ℕ)
pair_eq = record { eqb = pair_eqb; eqb_iff = pair_eqb_iff }
