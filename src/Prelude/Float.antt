-- ===== src/Prelude/Float.antt =====
-- `f64` values as their 64-bit patterns. Only the comparisons of two values are defined here.
use Prim.Native.Nat.{ℕ, ◌%◌, ◌+◌, ◌-◌}
use mathlib.Core.Bool.{Bool, not, ◌&&◌, ◌||◌}
use aether_terminal.Prelude.Tests.{ltb, leb, ◌==◌, if◌then◌else◌}

abbrev pub F64 : Type 0
F64 = ℕ

-- The pattern without its sign bit.
magnitude : F64 → ℕ
magnitude x = x % 0x8000000000000000

is_nan : F64 → Bool
unfolding magnitude
is_nan x = ltb 0x7ff0000000000000 (magnitude x)

-- `==` of IEEE 754: a NaN equals nothing, and the two zeros are equal.
unfoldable pub f64_eq : F64 → F64 → Bool
unfolding is_nan magnitude
f64_eq x y = not (is_nan x) && not (is_nan y) && (x == y || (magnitude x == 0 && magnitude y == 0))

-- Grows with the value; the two zeros agree.
rank : F64 → ℕ
unfolding magnitude
rank x =
    if ltb x 0x8000000000000000 then 0x8000000000000000 + x else 0x8000000000000000 - magnitude x

-- `<=` of IEEE 754.
unfoldable pub f64_le : F64 → F64 → Bool
unfolding is_nan magnitude rank
f64_le x y = not (is_nan x) && not (is_nan y) && leb (rank x) (rank y)
