-- ===== src/Config/Load.antt =====
-- `config_load` of src/config.c. The bytes of the file are an argument, none if it cannot be Opened;
-- log lines are left out.
use coding_gateway.Base.{
  ℕ, ◌+◌, ◌-◌, ◌%◌, ◌^◌, List, [], ◌∷◌, true, false, Option, none, some, ltb, ◌==◌, if◌then◌else◌,
  set, take, drop, replicate, ℤ, pos, negsuc, ltb_ℤ,
}
use coding_gateway.Limits.{max_paths, max_k, max_window, max_payload}
use coding_gateway.Float.{FloatOps}
use coding_gateway.Config.{PathConfig, GatewayConfig}
use coding_gateway.Config.Text.{codes, same_text, text, trim, split_at, lines, atoi}

-- The cast to `uint16_t`.
unfoldable pub to_u16 : ℤ → ℕ
to_u16 (pos n) = n % 2 ^ 16
to_u16 (negsuc n) = 2 ^ 16 - 1 - n % 2 ^ 16

-- `cfg`, and the locals `section` and `cur_path`, the latter by its index.
pub record Loading (F : Type 0) : Type 0 where
  pub cfg : GatewayConfig F
  pub section : List ℕ
  pub cur_path : Option ℕ

module _ {F : Type 0} (ops : FloatOps F) where
  -- What the `memset` leaves in a path.
  abbrev cleared : PathConfig F
  cleared = record {
    name = [];
    interface = [];
    remote_ip = [];
    remote_port = 0;
    weight = ops.nought;
    enabled = false;
  }

  unfoldable pub defaults : GatewayConfig F
  defaults = record {
    mode = codes "tx";
    tun_name = [];
    tun_addr = [];
    k = pos 4;
    redundancy_ratio = ops.default_redundancy;
    block_timeout_ms = pos 5;
    max_payload = pos 1400;
    window_size = pos 8;
    strategy_type = codes "fixed";
    probe_interval_ms = pos 100;
    probe_loss_threshold = ops.default_threshold;
    ewma_alpha = ops.default_alpha;
    listen_port = pos 7000;
    paths = λ i. cleared;
    path_count = 0;
    metrics_port = pos 0;
    log_level = pos 2;
    crypto_key = [];
    ip_forward = false;
    forward_routes = replicate 8 [];
    forward_route_count = 0;
  }

  abbrev new_path : List ℕ → PathConfig F
  new_path section = record cleared {
    weight = ops.unity;
    enabled = true;
    name = take 31 (drop 5 section);
  }

  -- A line `[s`, with what stands before the next `]`.
  unfoldable pub load_header : List ℕ → Loading F → Loading F
  load_header before st =
      let section = take 63 (trim before) in
      let count = st.cfg.path_count in
      if same_text (take 5 section) (codes "path.")
      then if ltb count max_paths
        then record {
          cfg = record st.cfg {
            paths = λ i. if i == count then new_path section else st.cfg.paths i;
            path_count = count + 1;
          };
          section = section;
          cur_path = some count;
        }
        else record { cfg = st.cfg; section = section; cur_path = none }
      else record { cfg = st.cfg; section = section; cur_path = none }

  unfoldable pub set_general : List ℕ → List ℕ → GatewayConfig F → GatewayConfig F
  set_general key val cfg =
      if same_text key (codes "mode")
      then record cfg { mode = take 7 val }
      else if same_text key (codes "tun_name")
      then record cfg { tun_name = take 15 val }
      else if same_text key (codes "tun_addr")
      then record cfg { tun_addr = take 19 val }
      else if same_text key (codes "listen_port")
      then record cfg { listen_port = atoi val }
      else if same_text key (codes "metrics_port")
      then record cfg { metrics_port = atoi val }
      else if same_text key (codes "log_level")
      then record cfg { log_level = atoi val }
      else if same_text key (codes "crypto_key")
      then record cfg { crypto_key = take 64 val }
      else cfg

  unfoldable pub set_coding : List ℕ → List ℕ → GatewayConfig F → GatewayConfig F
  set_coding key val cfg =
      if same_text key (codes "k")
      then record cfg { k = atoi val }
      else if same_text key (codes "redundancy_ratio")
      then record cfg { redundancy_ratio = ops.atof val }
      else if same_text key (codes "block_timeout_ms")
      then record cfg { block_timeout_ms = atoi val }
      else if same_text key (codes "max_payload")
      then record cfg { max_payload = atoi val }
      else if same_text key (codes "window_size")
      then record cfg { window_size = atoi val }
      else cfg

  unfoldable pub set_strategy : List ℕ → List ℕ → GatewayConfig F → GatewayConfig F
  set_strategy key val cfg =
      if same_text key (codes "type")
      then record cfg { strategy_type = take 15 val }
      else if same_text key (codes "probe_interval_ms")
      then record cfg { probe_interval_ms = atoi val }
      else if same_text key (codes "probe_loss_threshold")
      then record cfg { probe_loss_threshold = ops.atof val }
      else if same_text key (codes "ewma_alpha")
      then record cfg { ewma_alpha = ops.atof val }
      else cfg

  unfoldable pub set_forward : List ℕ → List ℕ → GatewayConfig F → GatewayConfig F
  set_forward key val cfg =
      if same_text key (codes "ip_forward")
      then record cfg { ip_forward = same_text val (codes "true") }
      else if same_text key (codes "route")
      then if ltb cfg.forward_route_count 8
        then record cfg {
          forward_routes = set cfg.forward_routes cfg.forward_route_count (take 47 val);
          forward_route_count = cfg.forward_route_count + 1;
        }
        else cfg
      else cfg

  unfoldable pub set_path : List ℕ → List ℕ → PathConfig F → PathConfig F
  set_path key val p =
      if same_text key (codes "interface")
      then record p { interface = take 15 val }
      else if same_text key (codes "remote_ip")
      then record p { remote_ip = take 39 val }
      else if same_text key (codes "remote_port")
      then record p { remote_port = to_u16 (atoi val) }
      else if same_text key (codes "weight")
      then record p { weight = ops.atof val }
      else if same_text key (codes "enabled")
      then record p { enabled = same_text val (codes "true") }
      else p

  unfoldable pub set_current : List ℕ → List ℕ → Option ℕ → GatewayConfig F → GatewayConfig F
  set_current key val none cfg = cfg
  set_current key val (some i) cfg = record cfg {
    paths = λ j. if j == i then set_path key val (cfg.paths i) else cfg.paths j;
  }

  -- A pair of a key and a value.
  unfoldable pub load_pair : List ℕ → List ℕ → Loading F → Loading F
  load_pair key val st = record st {
    cfg =
        if same_text st.section (codes "general")
        then set_general key val st.cfg
        else if same_text st.section (codes "coding")
        then set_coding key val st.cfg
        else if same_text st.section (codes "strategy")
        then set_strategy key val st.cfg
        else if same_text st.section (codes "forward")
        then set_forward key val st.cfg
        else set_current key val st.cur_path st.cfg;
  }

  -- The loop body after `trim(line)`.
  unfoldable pub load_trimmed : List ℕ → Loading F → Loading F
  load_trimmed [] st = st
  load_trimmed (c ∷ rest) st =
      if c == 35
      then st
      else if c == 91
      then elim (split_at 93 rest) [ none ↦ st | some (before, after) ↦ load_header before st ]
      else elim (split_at 61 (c ∷ rest)) [
        | none ↦ st
        | some (before, after) ↦ load_pair (trim before) (trim after) st
      ]

  unfoldable pub load_line : Loading F → List ℕ → Loading F
  load_line st line = load_trimmed (trim (text line)) st

  abbrev pub load_lines : Loading F → List (List ℕ) → Loading F
  load_lines st [] = st
  load_lines st (line ∷ rest) = load_lines (load_line st line) rest

-- `x` within the bounds from 1 to `high`.
unfoldable pub clamp : ℕ → ℤ → ℤ
clamp high x =
    let raised = if ltb_ℤ x (pos 1) then pos 1 else x in
    if ltb_ℤ (pos high) raised then pos high else raised

unfoldable pub clamped : {F : Type 0} → GatewayConfig F → GatewayConfig F
unfolding clamp
clamped cfg = record cfg {
  k = clamp max_k cfg.k;
  window_size = clamp max_window cfg.window_size;
  max_payload = clamp max_payload cfg.max_payload;
}

abbrev pub start_loading : {F : Type 0} → FloatOps F → Loading F
start_loading ops = record { cfg = defaults ops; section = []; cur_path = none }

-- None for the return value -1.
unfoldable pub config_load : {F : Type 0} → FloatOps F → Option (List ℕ) → Option (GatewayConfig F)
unfolding clamped
config_load ops none = none
config_load ops (some file) = some (clamped (load_lines ops (start_loading ops) (lines file)).cfg)
