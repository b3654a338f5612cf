-- ===== src/Float/Whole.antt =====
-- An instance of the operations with whole numbers only, on which the tests run.
use coding_gateway.Base.{ℕ, ◌+◌, ◌-◌, ◌*◌, ◌/◌, ltb, pos}
use coding_gateway.Float.{FloatOps}

abbrev pub whole : FloatOps ℕ
whole = record {
  of_int = λ x. x;
  plus = λ x y. x + y;
  minus = λ x y. x - y;
  times = λ x y. x * y;
  over = λ x y. x / y;
  is_greater = λ x y. ltb y x;
  round = λ x. pos x;
  ceil = λ x. pos x;
  max_redundancy = 3;
  atof = λ text. 1;
  nought = 0;
  half = 0;
  unity = 1;
  default_alpha = 1;
  default_redundancy = 2;
  default_threshold = 1;
  default_rtt = 5;
}
