-- ===== src/Strategy/Init.antt =====
-- `strategy_init`, `strategy_update_probe` and the readers of src/strategy.c. Log lines are left out.
use coding_gateway.Base.{
  ℕ, zero, suc, ◌+◌, ◌%◌, ◌^◌, List, [], Bool, true, false, not, ◌||◌, Option, none, some, ltb,
  ◌==◌, if◌then◌else◌, set, take, replicate, ℤ, pos, pos_part, ltb_ℤ, leb_ℤ,
}
use coding_gateway.Limits.{max_paths}
use coding_gateway.Float.{FloatOps}
use coding_gateway.Config.{PathConfig, GatewayConfig}
use coding_gateway.Strategy.{PathState, StrategyCtx, at_least_one}
use coding_gateway.Strategy.Reload.{checked_alpha}

module _ {F : Type 0} (ops : FloatOps F) where
  -- What `calloc` leaves in an entry of `paths`.
  unfoldable pub zero_path : PathState F
  zero_path = record {
    cfg = record {
      name = [];
      interface = [];
      remote_ip = [];
      remote_port = 0;
      weight = ops.nought;
      enabled = false;
    };
    loss_rate = ops.nought;
    rtt_ms = ops.nought;
    weight_current = ops.nought;
    alive = false;
    probes_sent = 0;
    probes_recv = 0;
    shards_sent = 0;
  }

  -- What the loop makes of the zero entry for a configured path.
  unfoldable pub init_path : PathConfig F → PathState F
  unfolding zero_path
  init_path p = record zero_path {
    cfg = p;
    weight_current = p.weight;
    alive = p.enabled;
    rtt_ms = ops.default_rtt;
    loss_rate = ops.nought;
  }

  -- The changes of the credits by the loop, with `left` paths left from index `i` on.
  unfoldable pub init_credits : GatewayConfig F → ℕ → ℕ → List ℕ → List ℕ
  init_credits cfg zero i credits = credits
  init_credits cfg (suc left) i credits =
      init_credits cfg left (i + 1) (set credits i (at_least_one (ops.round (cfg.paths i).weight)))

  unfoldable pub initial : GatewayConfig F → StrategyCtx F
  unfolding zero_path init_path init_credits checked_alpha
  initial cfg = record {
    paths = λ i. if ltb i cfg.path_count then init_path (cfg.paths i) else zero_path;
    path_count = cfg.path_count;
    kind = take 15 cfg.strategy_type;
    base_redundancy = cfg.redundancy_ratio;
    loss_threshold = cfg.probe_loss_threshold;
    ewma_alpha = checked_alpha ops cfg;
    path_credit = init_credits cfg cfg.path_count 0 (replicate max_paths 0);
  }

  -- `allocated` is whether `calloc` succeeds.
  unfoldable pub strategy_init : Bool → GatewayConfig F → Option (StrategyCtx F)
  unfolding initial
  strategy_init allocated cfg = if not allocated then none else some (initial cfg)

  -- `alpha * sample + (1 - alpha) * average`.
  unfoldable pub ewma : F → F → F → F
  ewma alpha sample average =
      ops.plus (ops.times alpha sample) (ops.times (ops.minus ops.unity alpha) average)

  -- The statistics of the path, before its state is decided.
  unfoldable pub measured : StrategyCtx F → ℕ → Bool → PathState F → PathState F
  unfolding ewma
  measured ctx rtt_us received p = record p {
    probes_sent = (p.probes_sent + 1) % 2 ^ 64;
    probes_recv = if received then (p.probes_recv + 1) % 2 ^ 64 else p.probes_recv;
    rtt_ms =
        if received
        then ewma ctx.ewma_alpha (ops.over (ops.of_int rtt_us) (ops.of_int 1000)) p.rtt_ms
        else p.rtt_ms;
    loss_rate = ewma ctx.ewma_alpha (if received then ops.nought else ops.unity) p.loss_rate;
  }

  abbrev pub is_lossy : StrategyCtx F → PathState F → Bool
  is_lossy ctx p = ops.is_greater p.loss_rate ctx.loss_threshold

  abbrev pub is_healthy : StrategyCtx F → PathState F → Bool
  is_healthy ctx p = ops.is_greater (ops.times ctx.loss_threshold ops.half) p.loss_rate

  unfoldable pub decided : StrategyCtx F → PathState F → PathState F
  decided ctx p = record p {
    alive = if is_healthy ctx p then true else if is_lossy ctx p then false else p.alive;
  }

  unfoldable pub strategy_update_probe : StrategyCtx F → ℤ → ℕ → Bool → StrategyCtx F
  unfolding measured decided
  strategy_update_probe ctx path_idx rtt_us received =
      let i = pos_part path_idx in
      let p = measured ctx rtt_us received (ctx.paths i) in
      if ltb_ℤ path_idx (pos 0) || leb_ℤ (pos ctx.path_count) path_idx then ctx else record ctx {
        paths = λ j. if j == i then decided ctx p else ctx.paths j;
        path_credit =
            if is_healthy ctx p
            then set ctx.path_credit i (at_least_one (ops.round p.weight_current))
            else ctx.path_credit;
      }

unfoldable pub strategy_get_path_state : {F : Type 0} → StrategyCtx F → ℤ → Option (PathState F)
strategy_get_path_state ctx idx =
    if ltb_ℤ idx (pos 0) || leb_ℤ (pos ctx.path_count) idx
    then none
    else some (ctx.paths (pos_part idx))

abbrev pub strategy_path_count : {F : Type 0} → StrategyCtx F → ℕ
strategy_path_count ctx = ctx.path_count
