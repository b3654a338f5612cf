-- ===== src/Float.antt =====
-- What the code uses of `float`. The type and its operations are a parameter, of which only the
-- signatures are fixed.
pub mod Whole
use coding_gateway.Base.{ℕ, List, Bool, ℤ}

-- `round` and `ceil` are `roundf` and `ceilf` with the cast to int, `atof` has the cast to float.
pub record FloatOps (F : Type 0) : Type 0 where
  pub of_int : ℕ → F
  pub plus : F → F → F
  pub minus : F → F → F
  pub times : F → F → F
  pub over : F → F → F
  pub is_greater : F → F → Bool
  pub round : F → ℤ
  pub ceil : F → ℤ
  pub atof : List ℕ → F
  pub nought : F
  pub half : F
  pub unity : F
  pub max_redundancy : F
  pub default_alpha : F
  pub default_redundancy : F
  pub default_threshold : F
  pub default_rtt : F
