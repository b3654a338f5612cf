-- ===== src/Strategy/Invariant.antt =====
-- What every operation of src/strategy.c preserves, and the first choice after the initialisation.
use coding_gateway.Base.{
  ℕ, zero, suc, ◌+◌, ◌≤◌, ◌<◌, ◌≡◌, refl, sym, ap, ◌∙◌, arith, List, Bool, true, false, some, ltb,
  lt→ltb, if◌then◌else◌, inl, inr, Bool-cases, length, length-set, set, get_or, replicate,
  length-replicate, get_or-set_self, get_or-set_ne, ℤ, pos, pos_part, ltb_ℤ, leb_ℤ, ◌||◌, ◌&&◌, ◌-◌,
}
use native.Mathlib.Decide.{ℕ_discrete}
use coding_gateway.Limits.{max_paths}
use coding_gateway.Float.{FloatOps}
use coding_gateway.Config.{GatewayConfig}
use coding_gateway.Strategy.{
  StrategyCtx, at_least_one, is_usable, any_from, full_credit, has_credit, refill, refilled,
  strategy_next_path,
}
use coding_gateway.Strategy.Choice.{
  strategy_next_path-IsBest, any_from_missing, at_least_one-positive,
}
use coding_gateway.Strategy.Reload.{strategy_reload, length-reload_credits}
use coding_gateway.Strategy.Init.{
  initial, measured, is_healthy, init_credits, init_path, strategy_init, strategy_update_probe,
}

-- At most 8 paths, and 8 credits.
pub record IsStrategy {F : Type 0} (ctx : StrategyCtx F) : Type 0 where
  pub fits : ctx.path_count ≤ max_paths
  pub room : length ctx.path_credit ≡ max_paths

module _ {F : Type 0} (ops : FloatOps F) where
  length-refill :
      (ctx : StrategyCtx F) (left i : ℕ) (credits : List ℕ)
      → length (refill ops ctx left i credits) ≡ length credits
  unfolding refill
  length-refill ctx zero i credits = refl
  length-refill ctx (suc left) i credits = elim (Bool-cases (is_usable ops ctx i)) [
    | inl e ↦
        rw (e, refill)
          (length-refill ctx left (i + 1) (set credits i (full_credit ops ctx i))
            ∙ length-set credits i (full_credit ops ctx i))
    | inr e ↦ rw (e, refill) (length-refill ctx left (i + 1) credits)
  ]

  length-refilled : (ctx : StrategyCtx F) → length (refilled ops ctx) ≡ length ctx.path_credit
  unfolding refilled
  length-refilled ctx =
      elim (Bool-cases (any_from (has_credit ops ctx ctx.path_credit) ctx.path_count 0)) [
        | inl e ↦ rw (e, refilled) refl
        | inr e ↦ rw (e, refilled) (length-refill ctx ctx.path_count 0 ctx.path_credit)
      ]

  length-init_credits :
      (cfg : GatewayConfig F) (left i : ℕ) (credits : List ℕ)
      → length (init_credits ops cfg left i credits) ≡ length credits
  unfolding init_credits
  length-init_credits cfg zero i credits = refl
  length-init_credits cfg (suc left) i credits =
      length-init_credits cfg left (i + 1)
        (set credits i (at_least_one (ops.round (cfg.paths i).weight)))
      ∙ length-set credits i (at_least_one (ops.round (cfg.paths i).weight))

  init_credits_below :
      (cfg : GatewayConfig F) (left i : ℕ) (credits : List ℕ) (j : ℕ)
      → j < i
      → get_or (init_credits ops cfg left i credits) j 0 ≡ get_or credits j 0
  unfolding init_credits
  init_credits_below cfg zero i credits j p = refl
  init_credits_below cfg (suc left) i credits j p =
      let c = at_least_one (ops.round (cfg.paths i).weight) in
      init_credits_below cfg left (i + 1) (set credits i c) j (omega arith)
      ∙ get_or-set_ne credits i j c 0 (λ q. omega (arith, q))

  init_credits_fills :
      (cfg : GatewayConfig F) (left i : ℕ) (credits : List ℕ) (j : ℕ)
      → i ≤ j
      → j < i + left
      → j < length credits
      → get_or (init_credits ops cfg left i credits) j 0
        ≡ at_least_one (ops.round (cfg.paths j).weight)
  unfolding init_credits
  init_credits_fills cfg zero i credits j low high room = absurd (omega arith)
  init_credits_fills cfg (suc left) i credits j low high room =
      let c = at_least_one (ops.round (cfg.paths i).weight) in
      elim (ℕ_discrete i j) [
        | yes same ↦
            init_credits_below cfg left (i + 1) (set credits i c) j (omega (arith, same))
            ∙ rw same
                (get_or-set_self credits j (at_least_one (ops.round (cfg.paths j).weight)) 0 room)
        | no ne ↦
            init_credits_fills cfg left (i + 1) (set credits i c) j (omega (arith, ne))
              (omega arith) (omega (arith, length-set credits i c))
      ]

  initial-IsStrategy :
      (cfg : GatewayConfig F) → cfg.path_count ≤ max_paths → IsStrategy (initial ops cfg)
  unfolding initial
  initial-IsStrategy cfg small = record {
    fits = small;
    room =
        length-init_credits cfg cfg.path_count 0 (replicate max_paths 0)
        ∙ length-replicate {A = ℕ} max_paths 0;
  }

  pub next-IsStrategy :
      (ctx : StrategyCtx F) → IsStrategy ctx → IsStrategy (strategy_next_path ops ctx).0
  next-IsStrategy ctx v = elim (strategy_next_path-IsBest ops ctx (omega (arith, v.fits, v.room))) [
    | inl t ↦ rw t.1 v
    | inr (b, best, positive, e) ↦
        let c = get_or (refilled ops ctx) b 0 - 1 in
        rw e (record {
          fits = v.fits;
          room = length-set (refilled ops ctx) b c ∙ length-refilled ctx ∙ v.room;
        })
  ]

  pub update-IsStrategy :
      (ctx : StrategyCtx F) (path_idx : ℤ) (rtt_us : ℕ) (received : Bool)
      → IsStrategy ctx
      → IsStrategy (strategy_update_probe ops ctx path_idx rtt_us received)
  unfolding strategy_update_probe
  update-IsStrategy ctx path_idx rtt_us received v =
      let i = pos_part path_idx in
      let p = measured ops ctx rtt_us received (ctx.paths i) in
      let c = at_least_one (ops.round p.weight_current) in
      elim (Bool-cases (ltb_ℤ path_idx (pos 0) || leb_ℤ (pos ctx.path_count) path_idx)) [
        | inl e ↦ rw (e, strategy_update_probe) v
        | inr e ↦ elim (Bool-cases (is_healthy ops ctx p)) [
          | inl good ↦
              rw (e, good, strategy_update_probe)
                (record { fits = v.fits; room = length-set ctx.path_credit i c ∙ v.room })
          | inr bad ↦ rw (e, bad, strategy_update_probe) (record { fits = v.fits; room = v.room })
        ]
      ]

  pub init-IsStrategy :
      (cfg : GatewayConfig F)
      → cfg.path_count ≤ max_paths
      → (made : StrategyCtx F) × (strategy_init ops true cfg ≡ some made) × IsStrategy made
  unfolding strategy_init
  init-IsStrategy cfg small = (initial ops cfg, refl, initial-IsStrategy cfg small)

  pub reload-IsStrategy :
      (ctx : StrategyCtx F) (cfg : GatewayConfig F)
      → IsStrategy ctx
      → IsStrategy (strategy_reload ops cfg ctx)
  unfolding strategy_reload
  reload-IsStrategy ctx cfg v = record {
    fits = v.fits;
    room =
        length-reload_credits ops cfg
          (if ltb ctx.path_count cfg.path_count then ctx.path_count else cfg.path_count) 0
          ctx.path_credit
        ∙ v.room;
  }

  -- The initialisation of a configuration of at most 8 paths makes a context of at most 8 paths
  -- with 8 credits. The choice of a path, a probe's result and a reload keep it so.
  pub operations-IsStrategy :
      (ctx : StrategyCtx F) (cfg : GatewayConfig F) (path_idx : ℤ) (rtt_us : ℕ) (received : Bool)
      → cfg.path_count ≤ max_paths
      → IsStrategy ctx
      → ((made : StrategyCtx F) × (strategy_init ops true cfg ≡ some made) × IsStrategy made)
        × IsStrategy (strategy_next_path ops ctx).0
        × IsStrategy (strategy_update_probe ops ctx path_idx rtt_us received)
        × IsStrategy (strategy_reload ops cfg ctx)
  operations-IsStrategy ctx cfg path_idx rtt_us received small v = (
    init-IsStrategy cfg small,
    next-IsStrategy ctx v,
    update-IsStrategy ctx path_idx rtt_us received v,
    reload-IsStrategy ctx cfg v,
  )

  usable_initially :
      (cfg : GatewayConfig F) (j : ℕ)
      → j < cfg.path_count
      → is_usable ops (initial ops cfg) j ≡ (cfg.paths j).enabled
  unfolding initial init_path
  usable_initially cfg j p = rw (lt→ltb j cfg.path_count p) (twice (cfg.paths j).enabled)
    where
      twice : (e : Bool) → (e && e) ≡ e
      twice true = refl
      twice false = refl

  credit_initially :
      (cfg : GatewayConfig F) (j : ℕ)
      → cfg.path_count ≤ max_paths
      → j < cfg.path_count
      → get_or (initial ops cfg).path_credit j 0 ≡ at_least_one (ops.round (cfg.paths j).weight)
  unfolding initial
  credit_initially cfg j small p =
      init_credits_fills cfg cfg.path_count 0 (replicate max_paths 0) j (omega arith) (omega arith)
        (omega (arith, length-replicate {A = ℕ} max_paths 0))

  no_refill_initially :
      (cfg : GatewayConfig F) (i : ℕ)
      → cfg.path_count ≤ max_paths
      → i < cfg.path_count
      → (cfg.paths i).enabled ≡ true
      → refilled ops (initial ops cfg) ≡ (initial ops cfg).path_credit
  unfolding refilled has_credit initial
  no_refill_initially cfg i small p on =
      let ctx = initial ops cfg in
      let test = has_credit ops ctx ctx.path_credit in
      let weight = ops.round (cfg.paths i).weight in
      let credit : ltb 0 (get_or ctx.path_credit i 0) ≡ true =
        lt→ltb 0 (get_or ctx.path_credit i 0)
          (omega (arith, credit_initially cfg i small p, at_least_one-positive weight)) in
      let usable : is_usable ops ctx i ≡ true = usable_initially cfg i p ∙ on in
      elim (Bool-cases (any_from test ctx.path_count 0)) [
        | inl e ↦ rw (e, refilled) refl
        | inr e ↦
            let missing = any_from_missing test ctx.path_count 0 i e (omega arith) (omega arith) in
            absurd (
              cc (
                missing,
                both (is_usable ops ctx i) (ltb 0 (get_or ctx.path_credit i 0)) usable credit,
              ))
      ]
    where
      both : (a b : Bool) → a ≡ true → b ≡ true → (a && b) ≡ true
      both true b p q = q
      both false b p q = p

  -- If some configured path is enabled, the first choice after the initialisation is an enabled
  -- path, of the highest weight, rounded and at least 1, among the enabled ones.
  pub strategy_next_path-strategy_init :
      (cfg : GatewayConfig F) (ctx : StrategyCtx F) (i : ℕ)
      → cfg.path_count ≤ max_paths
      → strategy_init ops true cfg ≡ some ctx
      → i < cfg.path_count
      → (cfg.paths i).enabled ≡ true
      → (b : ℕ) × ((strategy_next_path ops ctx).1 ≡ some b)
        × (b < cfg.path_count)
        × ((cfg.paths b).enabled ≡ true)
        × (at_least_one (ops.round (cfg.paths i).weight)
            ≤ at_least_one (ops.round (cfg.paths b).weight))
  unfolding strategy_init
  strategy_next_path-strategy_init cfg ctx i small made inside on =
      rw (← some_ctx made) first_choice
    where
      some_ctx : some (initial ops cfg) ≡ some ctx → initial ops cfg ≡ ctx
      some_ctx e = cc

      start : StrategyCtx F
      start = initial ops cfg

      credits :
          (j : ℕ)
          → j < cfg.path_count
          → get_or (refilled ops start) j 0 ≡ at_least_one (ops.round (cfg.paths j).weight)
      credits j p = rw (no_refill_initially cfg i small inside on) (credit_initially cfg j small p)

      first_choice :
          (b : ℕ) × ((strategy_next_path ops start).1 ≡ some b)
          × (b < cfg.path_count)
          × ((cfg.paths b).enabled ≡ true)
          × (at_least_one (ops.round (cfg.paths i).weight)
              ≤ at_least_one (ops.round (cfg.paths b).weight))
      first_choice =
          let v = initial-IsStrategy cfg small in
          elim (strategy_next_path-IsBest ops start (omega (arith, v.fits, v.room))) [
            | inl t ↦ absurd (cc (t.0 i inside, usable_initially cfg i inside, on))
            | inr (b, best, positive, e) ↦
                let (low, usable, rest) = best in
                (
                  b,
                  ap (λ r. r.1) e,
                  low,
                  sym (usable_initially cfg b low) ∙ usable,
                  omega (
                    arith,
                    (rest i inside (usable_initially cfg i inside ∙ on)).0,
                    credits i inside,
                    credits b low,
                  ),
                )
          ]
