-- ===== src/Config.antt =====
-- include/config.h: the configuration. A `char` array is the text in it, and an `int` an integer.
pub mod Text
pub mod Load
pub mod Stored
pub mod Bounds
pub mod Setting
pub mod Keys
pub mod Lines
mod Tests
use coding_gateway.Base.{ℕ, List, Bool, ℤ}

pub record PathConfig (F : Type 0) : Type 0 where
  pub name : List ℕ
  pub interface : List ℕ
  pub remote_ip : List ℕ
  pub remote_port : ℕ
  pub weight : F
  pub enabled : Bool

-- The array of paths is a function of the index.
pub record GatewayConfig (F : Type 0) : Type 0 where
  pub mode : List ℕ
  pub tun_name : List ℕ
  pub tun_addr : List ℕ
  pub k : ℤ
  pub redundancy_ratio : F
  pub block_timeout_ms : ℤ
  pub max_payload : ℤ
  pub window_size : ℤ
  pub strategy_type : List ℕ
  pub probe_interval_ms : ℤ
  pub probe_loss_threshold : F
  pub ewma_alpha : F
  pub listen_port : ℤ
  pub paths : ℕ → PathConfig F
  pub path_count : ℕ
  pub metrics_port : ℤ
  pub log_level : ℤ
  pub crypto_key : List ℕ
  pub ip_forward : Bool
  pub forward_routes : List (List ℕ)
  pub forward_route_count : ℕ
