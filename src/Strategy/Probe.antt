-- ===== src/Strategy/Probe.antt =====
-- What the result of a probe changes, by `strategy_update_probe` of src/strategy.c.
use coding_gateway.Base.{
  ℕ, ◌+◌, ◌%◌, ◌^◌, ◌≤◌, ◌<◌, ◌≡◌, ◌≢◌, refl, sym, arith, Bool, true, false, ◌||◌, ◌==◌, ==_iff,
  if◌then◌else◌, Bool-cases, inl, inr, get_or, set, get_or-set_self, get_or-set_ne, length, pos,
  negsuc, ltb_ℤ, leb_ℤ,
}
use native.Mathlib.Decide.{ℕ_discrete}
use coding_gateway.Float.{FloatOps}
use coding_gateway.Strategy.{StrategyCtx, at_least_one}
use coding_gateway.Strategy.Init.{ewma, measured, is_healthy, decided, strategy_update_probe}
use coding_gateway.Strategy.Invariant.{IsStrategy}

module _ {F : Type 0} (ops : FloatOps F) where
  -- The path that was probed and its credit, with the hysteresis of its state, and all the others.
  pub record IsProbed (ctx : StrategyCtx F) (i rtt_us : ℕ) (received : Bool) (after : StrategyCtx F)
      : Type 0 where
    pub rest_same : after ≡ record ctx { paths = after.paths; path_credit = after.path_credit }
    pub others : (j : ℕ) → after.paths j ≡ (if j == i then after.paths i else ctx.paths j)
    pub other_credits :
        (j : ℕ)
        → get_or after.path_credit j 0
          ≡ (if j == i then get_or after.path_credit i 0 else get_or ctx.path_credit j 0)
    pub path_same :
        ((after.paths i).cfg ≡ (ctx.paths i).cfg)
        × ((after.paths i).weight_current ≡ (ctx.paths i).weight_current)
    pub counts :
        ((after.paths i).probes_sent ≡ ((ctx.paths i).probes_sent + 1) % 2 ^ 64)
        × ((after.paths i).probes_recv ≡ (
            if received
            then ((ctx.paths i).probes_recv + 1) % 2 ^ 64
            else (ctx.paths i).probes_recv))
    pub rtt : (after.paths i).rtt_ms ≡ (
        if received
        then ops.plus
            (ops.times ctx.ewma_alpha (ops.over (ops.of_int rtt_us) (ops.of_int 1000)))
            (ops.times (ops.minus ops.unity ctx.ewma_alpha) (ctx.paths i).rtt_ms)
        else (ctx.paths i).rtt_ms)
    pub loss :
        (after.paths i).loss_rate
        ≡ ops.plus
            (ops.times ctx.ewma_alpha (if received then ops.nought else ops.unity))
            (ops.times (ops.minus ops.unity ctx.ewma_alpha) (ctx.paths i).loss_rate)
    pub state : (after.paths i).alive ≡ (
        if ops.is_greater (ops.times ctx.loss_threshold ops.half) (after.paths i).loss_rate
        then true
        else if ops.is_greater (after.paths i).loss_rate ctx.loss_threshold
        then false
        else (ctx.paths i).alive)
    pub credit : get_or after.path_credit i 0 ≡ (
        if ops.is_greater (ops.times ctx.loss_threshold ops.half) (after.paths i).loss_rate
        then at_least_one (ops.round (ctx.paths i).weight_current)
        else get_or ctx.path_credit i 0)

  -- The context after a probe of path `i` within the array.
  abbrev after : StrategyCtx F → ℕ → ℕ → Bool → StrategyCtx F
  after ctx i rtt_us received =
      let p = measured ops ctx rtt_us received (ctx.paths i) in
      record ctx {
        paths = λ j. if j == i then decided ops ctx p else ctx.paths j;
        path_credit =
            if is_healthy ops ctx p
            then set ctx.path_credit i (at_least_one (ops.round p.weight_current))
            else ctx.path_credit;
      }

  same_index : (i : ℕ) → (i == i) ≡ true
  same_index i = (==_iff i i).1 refl

  other_index : (j i : ℕ) → j ≢ i → (j == i) ≡ false
  other_index j i ne = elim (Bool-cases (j == i)) [
    | inl e ↦ absurd (ne ((==_iff j i).0 e))
    | inr e ↦ e
  ]

  after-IsProbed :
      (ctx : StrategyCtx F) (i rtt_us : ℕ) (received : Bool)
      → i < length ctx.path_credit
      → IsProbed ctx i rtt_us received (after ctx i rtt_us received)
  unfolding measured decided ewma
  after-IsProbed ctx i rtt_us received room =
      let p = measured ops ctx rtt_us received (ctx.paths i) in
      let c = at_least_one (ops.round (ctx.paths i).weight_current) in
      record {
        rest_same = refl;
        others = λ j. elim (Bool-cases (j == i)) [
          | inl e ↦ rw (e, same_index i) refl
          | inr e ↦ rw e refl
        ];
        other_credits = λ j. elim (ℕ_discrete i j) [
          | yes e ↦ rw (← e, same_index i) refl
          | no ne ↦
              rw (other_index j i (λ q. ne (sym q))) (elim (Bool-cases (is_healthy ops ctx p)) [
                | inl e ↦ rw e (get_or-set_ne ctx.path_credit i j c 0 ne)
                | inr e ↦ rw e refl
              ])
        ];
        path_same = rw (same_index i) (refl, refl);
        counts = rw (same_index i) (refl, refl);
        rtt = rw (same_index i) refl;
        loss = rw (same_index i) refl;
        state = rw (same_index i) refl;
        credit = rw (same_index i) (elim (Bool-cases (is_healthy ops ctx p)) [
          | inl e ↦ rw e (get_or-set_self ctx.path_credit i c 0 room)
          | inr e ↦ rw e refl
        ]);
      }

  runs_after :
      (ctx : StrategyCtx F) (i rtt_us : ℕ) (received : Bool)
      → i < ctx.path_count
      → strategy_update_probe ops ctx (pos i) rtt_us received ≡ after ctx i rtt_us received
  unfolding strategy_update_probe
  runs_after ctx i rtt_us received inside =
      let within : (ltb_ℤ (pos i) (pos 0) || leb_ℤ (pos ctx.path_count) (pos i)) ≡ false =
        ground arith in
      rw within refl

  -- On a context whose credits fit their array, a probe of one of its paths changes only this path
  -- and its credit. The probe is counted as sent and, if it was received, as received, with the
  -- moving average of the round trip in milliseconds; the configuration and the weight of the path
  -- stay. The loss rate becomes the moving average with a loss of 0 or 1. A path whose loss
  -- rate is then below half the threshold is alive with its full credit; one whose loss rate is above
  -- the threshold is dead; between the two its state stays. An index from the number of paths
  -- on, or below 0, changes nothing.
  pub strategy_update_probe-IsProbed :
      (ctx : StrategyCtx F) (i j m rtt_us : ℕ) (received : Bool)
      → IsStrategy ctx
      → i < ctx.path_count
      → ctx.path_count ≤ j
      → IsProbed ctx i rtt_us received (strategy_update_probe ops ctx (pos i) rtt_us received)
        × (strategy_update_probe ops ctx (pos j) rtt_us received ≡ ctx)
        × (strategy_update_probe ops ctx (negsuc m) rtt_us received ≡ ctx)
  unfolding strategy_update_probe
  strategy_update_probe-IsProbed ctx i j m rtt_us received v inside high =
      let past : (ltb_ℤ (pos j) (pos 0) || leb_ℤ (pos ctx.path_count) (pos j)) ≡ true =
        ground arith in
      let below : (ltb_ℤ (negsuc m) (pos 0) || leb_ℤ (pos ctx.path_count) (negsuc m)) ≡ true =
        ground arith in
      (
        rw (runs_after ctx i rtt_us received inside)
            (after-IsProbed ctx i rtt_us received (omega (arith, v.fits, v.room))),
        rw past refl,
        rw below refl,
      )
