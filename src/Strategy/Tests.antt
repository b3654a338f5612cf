-- ===== src/Strategy/Tests.antt =====
-- Two paths of weights 1 and 3 with no credit left, as in src/test_strategy.c; the numbers are whole.
use coding_gateway.Base.{
  ◌==◌, ℕ, ◌+◌, ◌-◌, ◌*◌, ◌≤◌, ◌<◌, ◌≡◌, refl, arith, [], ◌∷◌, true, false, none, some, ◌⊎◌, get_or,
  set,
}
use coding_gateway.Limits.{max_n}
use coding_gateway.Config.{GatewayConfig}
use coding_gateway.Float.Whole.{whole}
use coding_gateway.Base.{pos, length, replicate}
use coding_gateway.Strategy.Init.{initial, strategy_init, strategy_update_probe}
use coding_gateway.Strategy.Probe.{IsProbed, strategy_update_probe-IsProbed}
use coding_gateway.Base.{negsuc}
use coding_gateway.Strategy.Invariant.{IsStrategy, strategy_next_path-strategy_init}
use coding_gateway.Strategy.{
  at_least_one, PathState, StrategyCtx, is_usable, refilled, strategy_next_path, strategy_compute_n,
}
use coding_gateway.Strategy.Choice.{IsBest, strategy_next_path-IsBest}
use coding_gateway.Strategy.Reload.{strategy_reload, strategy_next_path-strategy_reload}
use coding_gateway.Strategy.Redundancy.{strategy_compute_n-bounds}

abbrev path_of_weight : ℕ → PathState ℕ
path_of_weight w = record {
  cfg = record {
    name = [];
    interface = [];
    remote_ip = [];
    remote_port = 5000;
    weight = w;
    enabled = true;
  };
  loss_rate = 0;
  rtt_ms = 5;
  weight_current = w;
  alive = true;
  probes_sent = 0;
  probes_recv = 0;
  shards_sent = 0;
}

abbrev two_paths : StrategyCtx ℕ
two_paths = record {
  paths = λ i. path_of_weight (i * 2 + 1);
  path_count = 2;
  kind = [];
  base_redundancy = 2;
  loss_threshold = 1;
  ewma_alpha = 1;
  path_credit = 0 ∷ 0 ∷ [];
}

-- The second path is chosen, and 2 of its credits are left.
second_chosen :
    strategy_next_path whole two_paths ≡ (record two_paths { path_credit = 1 ∷ 2 ∷ [] }, some 1)
unfolding strategy_next_path
second_chosen = refl

strategy_next_path-IsBest_example :
    (((j : ℕ) → j < 2 → is_usable whole two_paths j ≡ false)
      × (strategy_next_path whole two_paths ≡ (two_paths, none)))
    ⊎ ((b : ℕ) × IsBest whole two_paths (refilled whole two_paths) 2 (some b)
        × (0 < get_or (refilled whole two_paths) b 0)
        × (strategy_next_path whole two_paths ≡ (
          record two_paths {
            path_credit =
                set (refilled whole two_paths) b (get_or (refilled whole two_paths) b 0 - 1);
          },
          some b,
        )))
strategy_next_path-IsBest_example = strategy_next_path-IsBest whole two_paths (omega arith)

abbrev four : ℕ
four = 4

strategy_compute_n-bounds_example :
    ((strategy_compute_n whole two_paths four ≡ none) × (four ≡ 0))
    ⊎ ((n : ℕ) × (strategy_compute_n whole two_paths four ≡ some n)
        × (0 < four)
        × (n ≤ max_n)
        × ((four ≤ n) ⊎ (n ≡ max_n)))
strategy_compute_n-bounds_example = strategy_compute_n-bounds whole two_paths four

-- The new configuration disables the second path.
abbrev changed : GatewayConfig ℕ
changed = record {
  mode = [];
  tun_name = [];
  tun_addr = [];
  k = pos 4;
  redundancy_ratio = 2;
  block_timeout_ms = pos 5;
  max_payload = pos 1400;
  window_size = pos 8;
  strategy_type = [];
  probe_interval_ms = pos 100;
  probe_loss_threshold = 1;
  ewma_alpha = 1;
  paths = λ i. record {
    name = [];
    interface = [];
    remote_ip = [];
    remote_port = 5000;
    weight = 1;
    enabled = i == 0;
  };
  path_count = 2;
  listen_port = pos 5000;
  metrics_port = pos 9090;
  log_level = pos 1;
  crypto_key = [];
  ip_forward = false;
  forward_routes = [];
  forward_route_count = 0;
}

first_chosen : (strategy_next_path whole (strategy_reload whole changed two_paths)).1 ≡ some 0
unfolding strategy_next_path strategy_reload
first_chosen = refl

strategy_next_path-strategy_reload_example :
    (0 < two_paths.path_count)
    × ((changed.paths 0).enabled ≡ true)
    × ((two_paths.paths 0).alive ≡ true)
strategy_next_path-strategy_reload_example =
    strategy_next_path-strategy_reload whole changed two_paths 0 (omega arith) first_chosen
      (omega arith)

zero_credits : length (replicate 8 four) ≡ 8
zero_credits = refl

-- The context of eight entries.
abbrev eight : StrategyCtx ℕ
eight = record two_paths { path_credit = replicate 8 four }

eight-IsStrategy : IsStrategy eight
eight-IsStrategy = record { fits = omega arith; room = zero_credits }

-- The echo of a probe of the second path.
strategy_update_probe-IsProbed_example :
    IsProbed whole eight 1 9000 true (strategy_update_probe whole eight (pos 1) 9000 true)
    × (strategy_update_probe whole eight (pos 2) 9000 true ≡ eight)
    × (strategy_update_probe whole eight (negsuc 0) 9000 true ≡ eight)
strategy_update_probe-IsProbed_example =
    strategy_update_probe-IsProbed whole eight 1 2 0 9000 true eight-IsStrategy (omega arith)
      (omega arith)

strategy_next_path-strategy_init_example :
    (b : ℕ) × ((strategy_next_path whole (initial whole changed)).1 ≡ some b)
    × (b < 2)
    × ((changed.paths b).enabled ≡ true)
    × (at_least_one (whole.round (changed.paths 0).weight)
        ≤ at_least_one (whole.round (changed.paths b).weight))
unfolding strategy_init
strategy_next_path-strategy_init_example =
    strategy_next_path-strategy_init whole changed (initial whole changed) 0 (omega arith) refl
      (omega arith) refl
