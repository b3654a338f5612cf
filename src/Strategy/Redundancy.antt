-- ===== src/Strategy/Redundancy.antt =====
-- How many shards `strategy_compute_n` of src/strategy.c asks for.
use coding_gateway.Base.{
  ℕ, zero, suc, ◌≤◌, ◌<◌, ◌≡◌, refl, arith, false, none, some, ltb, ◌⊎◌, inl, inr,
}
use coding_gateway.Limits.{max_n}
use coding_gateway.Float.{FloatOps}
use coding_gateway.Base.{ℤ, pos, negsuc}
use coding_gateway.Strategy.{StrategyCtx, clamp_n, effective_ratio, strategy_compute_n}

clamp_n-bounds :
    (k : ℕ) (z : ℤ) → (clamp_n k z ≤ max_n) × ((k ≤ clamp_n k z) ⊎ (clamp_n k z ≡ max_n))
unfolding clamp_n
clamp_n-bounds k (pos n) = ground arith
clamp_n-bounds k (negsuc n) = ground arith

module _ {F : Type 0} (ops : FloatOps F) (ctx : StrategyCtx F) where
  -- `strategy_compute_n` fails exactly on `k` below 1. Otherwise it returns at least `k` shards, as
  -- far as the array of 32 allows, and never more than 32, whatever the floating-point operations
  -- do.
  pub strategy_compute_n-bounds :
      (k : ℕ)
      → ((strategy_compute_n ops ctx k ≡ none) × (k ≡ 0))
        ⊎ ((n : ℕ) × (strategy_compute_n ops ctx k ≡ some n)
            × (0 < k)
            × (n ≤ max_n)
            × ((k ≤ n) ⊎ (n ≡ max_n)))
  unfolding strategy_compute_n
  strategy_compute_n-bounds zero = inl (refl, refl)
  strategy_compute_n-bounds (suc k) =
      let z = ops.ceil (ops.times (ops.of_int (suc k)) (effective_ratio ops ctx)) in
      let positive : ltb (suc k) 1 ≡ false = ground arith in
      let (small, enough) = clamp_n-bounds (suc k) z in
      inr (clamp_n (suc k) z, rw positive refl, omega arith, small, enough)
