-- ===== src/Strategy/Reload.antt =====
-- `strategy_reload` of src/strategy.c: a new configuration over the running paths. Log lines are
-- left out.
use coding_gateway.Base.{
  ℕ, zero, suc, ◌+◌, ◌≤◌, ◌<◌, ◌≡◌, ◌≢◌, refl, sym, ap, ◌∙◌, arith, List, Bool, true, false, not,
  ◌&&◌, none, some, ltb, if◌then◌else◌, inl, inr, Bool-cases, length, length-set, set, take,
}
use coding_gateway.Config.{GatewayConfig}
use coding_gateway.Float.{FloatOps}
use coding_gateway.Strategy.{PathState, StrategyCtx, at_least_one, is_usable, strategy_next_path}
use coding_gateway.Strategy.Choice.{strategy_next_path-IsBest}

pub none-ne-some : {b : ℕ} → none ≢ some b
none-ne-some h = cc

pub some_inj : {b c : ℕ} → some b ≡ some c → b ≡ c
some_inj h = cc

module _ {F : Type 0} (ops : FloatOps F) (cfg : GatewayConfig F) where
  unfoldable pub checked_alpha : F
  checked_alpha =
      if ops.is_greater cfg.ewma_alpha ops.nought && not (ops.is_greater cfg.ewma_alpha ops.unity)
      then cfg.ewma_alpha
      else ops.default_alpha

  -- The loop body for path `i`, without its credit.
  unfoldable pub reload_path : ℕ → PathState F → PathState F
  reload_path i p = record p {
    cfg = record p.cfg { weight = (cfg.paths i).weight; enabled = (cfg.paths i).enabled };
    weight_current = (cfg.paths i).weight;
    alive = if not (cfg.paths i).enabled then false else p.alive;
  }

  -- The changes of the credits by the loop, with `left` paths left from index `i` on.
  unfoldable pub reload_credits : ℕ → ℕ → List ℕ → List ℕ
  reload_credits zero i credits = credits
  reload_credits (suc left) i credits = reload_credits left (i + 1) (
      if not (cfg.paths i).enabled
      then credits
      else set credits i (at_least_one (ops.round (cfg.paths i).weight)))

  unfoldable pub strategy_reload : StrategyCtx F → StrategyCtx F
  unfolding checked_alpha reload_path reload_credits
  strategy_reload ctx =
      let count = if ltb ctx.path_count cfg.path_count then ctx.path_count else cfg.path_count in
      record ctx {
        paths = λ i. if ltb i count then reload_path i (ctx.paths i) else ctx.paths i;
        kind = take 15 cfg.strategy_type;
        base_redundancy = cfg.redundancy_ratio;
        loss_threshold = cfg.probe_loss_threshold;
        ewma_alpha = checked_alpha;
        path_credit = reload_credits count 0 ctx.path_credit;
      }

  pub length-reload_credits :
      (left i : ℕ) (credits : List ℕ) → length (reload_credits left i credits) ≡ length credits
  unfolding reload_credits
  length-reload_credits zero i credits = refl
  length-reload_credits (suc left) i credits = elim (Bool-cases (cfg.paths i).enabled) [
    | inl e ↦
        let c = at_least_one (ops.round (cfg.paths i).weight) in
        rw (e, reload_credits)
          (length-reload_credits left (i + 1) (set credits i c) ∙ length-set credits i c)
    | inr e ↦ rw (e, reload_credits) (length-reload_credits left (i + 1) credits)
  ]

  module _ (ctx : StrategyCtx F) where
    -- A usable path after the reload is enabled by the new configuration and was alive before.
    reloaded_usable :
        (i : ℕ)
        → i < ctx.path_count
        → i < cfg.path_count
        → is_usable ops (strategy_reload ctx) i ≡ true
        → ((cfg.paths i).enabled ≡ true) × ((ctx.paths i).alive ≡ true)
    unfolding strategy_reload reload_path
    reloaded_usable i p q h =
        let count = if ltb ctx.path_count cfg.path_count then ctx.path_count else cfg.path_count in
        let inside : ltb i count ≡ true = ground arith in
        both (cfg.paths i).enabled (ctx.paths i).alive (rw inside at h)
      where
        both : (e a : Bool) → (e && (if not e then false else a)) ≡ true → (e ≡ true) × (a ≡ true)
        both true true h = (refl, refl)
        both true false h = absurd (cc)
        both false a h = absurd (cc)

    -- After a reload, `strategy_next_path` chooses only paths that the new configuration enables
    -- and that were alive before it, among the paths that both configurations have. In particular
    -- a path that was dead because it had been disabled is not used again when it is enabled.
    pub strategy_next_path-strategy_reload :
        (b : ℕ)
        → ctx.path_count ≤ length ctx.path_credit
        → (strategy_next_path ops (strategy_reload ctx)).1 ≡ some b
        → b < cfg.path_count
        → (b < ctx.path_count) × ((cfg.paths b).enabled ≡ true) × ((ctx.paths b).alive ≡ true)
    unfolding strategy_reload
    strategy_next_path-strategy_reload b room h new =
        let count = if ltb ctx.path_count cfg.path_count then ctx.path_count else cfg.path_count in
        let sized = length-reload_credits count 0 ctx.path_credit in
        elim (strategy_next_path-IsBest ops (strategy_reload ctx) (omega (arith, sized))) [
          | inl t ↦ absurd (none-ne-some (sym (ap (λ r. r.1) t.1) ∙ h))
          | inr (c, best, positive, e) ↦
              let same : c ≡ b = some_inj (sym (ap (λ r. r.1) e) ∙ h) in
              let (low, usable, rest) = best in
              let inside : b < ctx.path_count = rw same at low in
              let (on, live) = reloaded_usable b inside new (rw same at usable) in
              (inside, on, live)
        ]
