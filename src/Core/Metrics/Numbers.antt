-- ===== src/Core/Metrics/Numbers.antt =====
-- An arithmetic for runs: that of numbers, on the bit patterns themselves.
use aether_terminal.Prelude.{◌+◌, ◌-◌, ◌*◌, ◌/◌}
use aether_terminal.Core.Metrics.{Floats}

abbrev pub numbers : Floats
numbers = record {
  sub = λ a b. a - b;
  add = λ a b. a + b;
  mul = λ a b. a * b;
  div = λ a b. a / b;
  abs = λ a. a;
  sum = λ xs. 0;
  of_nat = λ n. n;
  to_u64 = λ n. n;
  of_f32 = λ n. n;
  secs_f64 = λ n. n;
  zero = 0;
  one = 1;
  hundred = 100;
  epsilon = 0;
  infinity = 0x7ff0000000000000;
  neg_infinity = 0xfff0000000000000;
}
