-- ===== src/Strategy.antt =====
-- src/strategy.c: the choice of a path for each shard by credit, and the number of shards. The
-- floating-point type and its operations are parameters.
pub mod Choice
pub mod Redundancy
pub mod Reload
pub mod Init
pub mod Invariant
pub mod Probe
mod Tests
use coding_gateway.Base.{
  ℕ, zero, suc, ◌+◌, ◌-◌, List, Bool, true, false, not, ◌&&◌, Option, none, some, ltb,
  if◌then◌else◌, get_or, set, replicate, take, ℤ, pos, negsuc,
}
use coding_gateway.Limits.{max_paths, max_n}
use coding_gateway.Float.{FloatOps}
use coding_gateway.Config.{PathConfig, GatewayConfig}

-- include/strategy.h.
pub record PathState (F : Type 0) : Type 0 where
  pub cfg : PathConfig F
  pub loss_rate : F
  pub rtt_ms : F
  pub weight_current : F
  pub alive : Bool
  pub probes_sent : ℕ
  pub probes_recv : ℕ
  pub shards_sent : ℕ

-- The array of paths is a function of the index. Credits are natural numbers: the code refills them
-- with 1 or more, and takes 1 from the highest.
pub record StrategyCtx (F : Type 0) : Type 0 where
  pub paths : ℕ → PathState F
  pub path_count : ℕ
  pub kind : List ℕ
  pub base_redundancy : F
  pub loss_threshold : F
  pub ewma_alpha : F
  pub path_credit : List ℕ

-- The loop that looks for an index that passes the test, with `left` indices left from `i` on.
unfoldable pub any_from : (ℕ → Bool) → ℕ → ℕ → Bool
any_from test zero i = false
any_from test (suc left) i = if test i then true else any_from test left (i + 1)

-- `(int) roundf (weight)`, at least 1.
abbrev pub at_least_one : ℤ → ℕ
at_least_one (pos n) = if ltb n 1 then 1 else n
at_least_one (negsuc n) = 1

-- The number of enabled paths, or of those that are also alive, from index `i` on.
unfoldable pub count_from : (ℕ → Bool) → ℕ → ℕ → ℕ
count_from test zero i = 0
count_from test (suc left) i = (if test i then 1 else 0) + count_from test left (i + 1)

-- `n` between `k` and the size of the array.
unfoldable pub clamp_n : ℕ → ℤ → ℕ
clamp_n k (pos n) = let m = if ltb n k then k else n in if ltb max_n m then max_n else m
clamp_n k (negsuc n) = if ltb max_n k then max_n else k

module _ {F : Type 0} (ops : FloatOps F) (ctx : StrategyCtx F) where
  abbrev pub is_usable : ℕ → Bool
  is_usable i = (ctx.paths i).cfg.enabled && (ctx.paths i).alive

  abbrev pub full_credit : ℕ → ℕ
  full_credit i = at_least_one (ops.round (ctx.paths i).weight_current)

  -- The loop that refills the credits.
  unfoldable pub refill : ℕ → ℕ → List ℕ → List ℕ
  refill zero i credits = credits
  refill (suc left) i credits =
      refill left (i + 1) (if is_usable i then set credits i (full_credit i) else credits)

  unfoldable pub has_credit : List ℕ → ℕ → Bool
  has_credit credits i = is_usable i && ltb 0 (get_or credits i 0)

  -- The credits after the refill, if one is needed.
  unfoldable pub refilled : List ℕ
  unfolding refill any_from has_credit
  refilled =
      if any_from (has_credit ctx.path_credit) ctx.path_count 0
      then ctx.path_credit
      else refill ctx.path_count 0 ctx.path_credit

  -- The loop that looks for the highest credit, with the best index so far.
  abbrev pub better : List ℕ → ℕ → Option ℕ → Option ℕ
  better credits i none = some i
  better credits i (some best) =
      if ltb (get_or credits best 0) (get_or credits i 0) then some i else some best

  unfoldable pub pick : List ℕ → ℕ → ℕ → Option ℕ → Option ℕ
  pick credits zero i best = best
  pick credits (suc left) i best =
      pick credits left (i + 1) (if not (is_usable i) then best else better credits i best)

  -- The new context and the path; `none` is the return value -1.
  unfoldable pub strategy_next_path : StrategyCtx F × Option ℕ
  unfolding any_from refilled pick
  strategy_next_path =
      if not (any_from is_usable ctx.path_count 0)
      then (ctx, none)
      else elim (pick refilled ctx.path_count 0 none) [
        | none ↦ (record ctx { path_credit = refilled }, none)
        | some best ↦
            (record ctx { path_credit = set refilled best (get_or refilled best 0 - 1) }, some best)
      ]

  unfoldable pub effective_ratio : F
  unfolding count_from
  effective_ratio =
      let n_total = count_from (λ i. (ctx.paths i).cfg.enabled) ctx.path_count 0 in
      let n_alive = count_from is_usable ctx.path_count 0 in
      let scaled =
        ops.times ctx.base_redundancy (ops.over (ops.of_int n_total) (ops.of_int n_alive)) in
      if ltb n_alive 1
      then ops.max_redundancy
      else if ltb n_alive n_total
      then (if ops.is_greater scaled ops.max_redundancy then ops.max_redundancy else scaled)
      else ctx.base_redundancy

  -- `none` is the return value -1.
  unfoldable pub strategy_compute_n : ℕ → Option ℕ
  unfolding effective_ratio clamp_n
  strategy_compute_n k =
      if ltb k 1
      then none
      else some (clamp_n k (ops.ceil (ops.times (ops.of_int k) effective_ratio)))
