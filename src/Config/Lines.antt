-- ===== src/Config/Lines.antt =====
-- What each setting that src/config.c knows does, and the line that sets it.
use coding_gateway.Base.{ℕ, ◌+◌, ◌≡◌, List, Option, some, ltb, ◌==◌, if◌then◌else◌, set, take}
use coding_gateway.Float.{FloatOps}
use coding_gateway.Config.{PathConfig, GatewayConfig}
use coding_gateway.Config.Text.{codes, same_text, atoi}
use coding_gateway.Config.Load.{Loading, to_u16, load_pair}
use coding_gateway.Config.Keys.{
  Setting, general_mode, general_tun_name, general_tun_addr, general_listen_port,
  general_metrics_port, general_log_level, general_crypto_key, coding_k, coding_redundancy_ratio,
  coding_block_timeout_ms, coding_max_payload, coding_window_size, strategy_kind,
  strategy_probe_interval_ms, strategy_probe_loss_threshold, strategy_ewma_alpha,
  forward_ip_forward, forward_route, path_interface, path_remote_ip, path_remote_port, path_weight,
  path_enabled,
}

-- The section of path `i`.
abbrev InPath : {F : Type 0} → ℕ → Loading F → Type 0
InPath i st = (take 5 st.section ≡ codes "path.") × (st.cur_path ≡ some i)

-- The section that the setting stands in; `i` is the path, for the settings of a path.
abbrev pub InSection : {F : Type 0} → Setting → ℕ → Loading F → Type 0
InSection general_mode i st = st.section ≡ codes "general"
InSection general_tun_name i st = st.section ≡ codes "general"
InSection general_tun_addr i st = st.section ≡ codes "general"
InSection general_listen_port i st = st.section ≡ codes "general"
InSection general_metrics_port i st = st.section ≡ codes "general"
InSection general_log_level i st = st.section ≡ codes "general"
InSection general_crypto_key i st = st.section ≡ codes "general"
InSection coding_k i st = st.section ≡ codes "coding"
InSection coding_redundancy_ratio i st = st.section ≡ codes "coding"
InSection coding_block_timeout_ms i st = st.section ≡ codes "coding"
InSection coding_max_payload i st = st.section ≡ codes "coding"
InSection coding_window_size i st = st.section ≡ codes "coding"
InSection strategy_kind i st = st.section ≡ codes "strategy"
InSection strategy_probe_interval_ms i st = st.section ≡ codes "strategy"
InSection strategy_probe_loss_threshold i st = st.section ≡ codes "strategy"
InSection strategy_ewma_alpha i st = st.section ≡ codes "strategy"
InSection forward_ip_forward i st = st.section ≡ codes "forward"
InSection forward_route i st = st.section ≡ codes "forward"
InSection path_interface i st = InPath i st
InSection path_remote_ip i st = InPath i st
InSection path_remote_port i st = InPath i st
InSection path_weight i st = InPath i st
InSection path_enabled i st = InPath i st

module _ {F : Type 0} (ops : FloatOps F) where
  abbrev at_path : ℕ → PathConfig F → GatewayConfig F → GatewayConfig F
  at_path i p cfg = record cfg { paths = λ j. if j == i then p else cfg.paths j }

  -- What the setting does to the configuration.
  abbrev pub with_setting : Setting → ℕ → List ℕ → GatewayConfig F → GatewayConfig F
  with_setting general_mode i val cfg = record cfg { mode = take 7 val }
  with_setting general_tun_name i val cfg = record cfg { tun_name = take 15 val }
  with_setting general_tun_addr i val cfg = record cfg { tun_addr = take 19 val }
  with_setting general_listen_port i val cfg = record cfg { listen_port = atoi val }
  with_setting general_metrics_port i val cfg = record cfg { metrics_port = atoi val }
  with_setting general_log_level i val cfg = record cfg { log_level = atoi val }
  with_setting general_crypto_key i val cfg = record cfg { crypto_key = take 64 val }
  with_setting coding_k i val cfg = record cfg { k = atoi val }
  with_setting coding_redundancy_ratio i val cfg = record cfg { redundancy_ratio = ops.atof val }
  with_setting coding_block_timeout_ms i val cfg = record cfg { block_timeout_ms = atoi val }
  with_setting coding_max_payload i val cfg = record cfg { max_payload = atoi val }
  with_setting coding_window_size i val cfg = record cfg { window_size = atoi val }
  with_setting strategy_kind i val cfg = record cfg { strategy_type = take 15 val }
  with_setting strategy_probe_interval_ms i val cfg = record cfg { probe_interval_ms = atoi val }
  with_setting strategy_probe_loss_threshold i val cfg = record cfg {
    probe_loss_threshold = ops.atof val;
  }
  with_setting strategy_ewma_alpha i val cfg = record cfg { ewma_alpha = ops.atof val }
  with_setting forward_ip_forward i val cfg = record cfg {
    ip_forward = same_text val (codes "true");
  }
  with_setting forward_route i val cfg =
      if ltb cfg.forward_route_count 8
      then record cfg {
        forward_routes = set cfg.forward_routes cfg.forward_route_count (take 47 val);
        forward_route_count = cfg.forward_route_count + 1;
      }
      else cfg
  with_setting path_interface i val cfg =
      at_path i (record (cfg.paths i) { interface = take 15 val }) cfg
  with_setting path_remote_ip i val cfg =
      at_path i (record (cfg.paths i) { remote_ip = take 39 val }) cfg
  with_setting path_remote_port i val cfg =
      at_path i (record (cfg.paths i) { remote_port = to_u16 (atoi val) }) cfg
  with_setting path_weight i val cfg =
      at_path i (record (cfg.paths i) { weight = ops.atof val }) cfg
  with_setting path_enabled i val cfg =
      at_path i (record (cfg.paths i) { enabled = same_text val (codes "true") }) cfg

  -- The assignments by the name of the section.
  abbrev stored : List ℕ → Option ℕ → List ℕ → List ℕ → GatewayConfig F → GatewayConfig F
  stored section current key val cfg =
      (load_pair ops key val (record { cfg = cfg; section = section; cur_path = current })).cfg
