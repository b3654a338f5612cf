-- ===== src/Config/Keys.antt =====
-- Every setting that src/config.c knows, with its key.
use coding_gateway.Base.{ℕ, ◌≡◌, refl, List, [], ◌∷◌, Bool, true, false, not, ◌&&◌, ◌==◌}
use coding_gateway.Config.Text.{codes, is_space}
use coding_gateway.Config.Setting.{Avoids, IsStripped, IsName}

pub data Setting : Type 0 where
  general_mode general_tun_name general_tun_addr general_listen_port general_metrics_port
        general_log_level general_crypto_key :
      Setting
  coding_k coding_redundancy_ratio coding_block_timeout_ms coding_max_payload coding_window_size :
      Setting
  strategy_kind strategy_probe_interval_ms strategy_probe_loss_threshold strategy_ewma_alpha :
      Setting
  forward_ip_forward forward_route : Setting
  path_interface path_remote_ip path_remote_port path_weight path_enabled : Setting

abbrev pub key_of : Setting → List ℕ
key_of general_mode = codes "mode"
key_of general_tun_name = codes "tun_name"
key_of general_tun_addr = codes "tun_addr"
key_of general_listen_port = codes "listen_port"
key_of general_metrics_port = codes "metrics_port"
key_of general_log_level = codes "log_level"
key_of general_crypto_key = codes "crypto_key"
key_of coding_k = codes "k"
key_of coding_redundancy_ratio = codes "redundancy_ratio"
key_of coding_block_timeout_ms = codes "block_timeout_ms"
key_of coding_max_payload = codes "max_payload"
key_of coding_window_size = codes "window_size"
key_of strategy_kind = codes "type"
key_of strategy_probe_interval_ms = codes "probe_interval_ms"
key_of strategy_probe_loss_threshold = codes "probe_loss_threshold"
key_of strategy_ewma_alpha = codes "ewma_alpha"
key_of forward_ip_forward = codes "ip_forward"
key_of forward_route = codes "route"
key_of path_interface = codes "interface"
key_of path_remote_ip = codes "remote_ip"
key_of path_remote_port = codes "remote_port"
key_of path_weight = codes "weight"
key_of path_enabled = codes "enabled"

-- The key is a name that a line can start with.
pub record IsNamed (key : List ℕ) : Type 0 where
  pub first : ℕ
  pub more : List ℕ
  pub is_named : key ≡ first ∷ more
  pub name : IsName first more

is_without : ℕ → List ℕ → Bool
is_without x [] = true
is_without x (c ∷ s) = not (c == x) && is_without x s

ends_well : List ℕ → Bool
unfolding is_space
ends_well [] = true
ends_well (c ∷ []) = not (is_space c)
ends_well (c ∷ d ∷ s) = ends_well (d ∷ s)

both : (a b : Bool) → (a && b) ≡ true → (a ≡ true) × (b ≡ true)
both true true e = (refl, refl)
both true false e = absurd cc
both false b e = absurd cc

off : (a : Bool) → not a ≡ true → a ≡ false
off true e = absurd cc
off false e = refl

is_without-Avoids : (x : ℕ) (s : List ℕ) → is_without x s ≡ true → Avoids x s
unfolding is_without
is_without-Avoids x [] e = tt
is_without-Avoids x (c ∷ s) e =
    let (here, there) = both (not (c == x)) (is_without x s) e in
    (off (c == x) here, is_without-Avoids x s there)

ends_well-IsStripped : (s : List ℕ) → ends_well s ≡ true → IsStripped s
unfolding ends_well
ends_well-IsStripped [] e = tt
ends_well-IsStripped (c ∷ []) e = off (is_space c) e
ends_well-IsStripped (c ∷ d ∷ s) e = ends_well-IsStripped (d ∷ s) e

made-IsNamed :
    (first : ℕ) (more : List ℕ)
    → is_space first ≡ false
    → (first == 35) ≡ false
    → (first == 91) ≡ false
    → ends_well (first ∷ more) ≡ true
    → is_without 61 (first ∷ more) ≡ true
    → is_without 0 (first ∷ more) ≡ true
    → IsNamed (first ∷ more)
made-IsNamed first more a b c d e f = record {
  first = first;
  more = more;
  is_named = refl;
  name = record {
    starts = a;
    no_comment = b;
    no_header = c;
    stripped = ends_well-IsStripped (first ∷ more) d;
    no_equals = is_without-Avoids 61 (first ∷ more) e;
    no_end = is_without-Avoids 0 (first ∷ more) f;
  };
}

pub key_of-IsNamed : (s : Setting) → IsNamed (key_of s)
unfolding is_space is_without ends_well
key_of-IsNamed general_mode = made-IsNamed 109 (codes "ode") refl refl refl refl refl refl
key_of-IsNamed general_tun_name = made-IsNamed 116 (codes "un_name") refl refl refl refl refl refl
key_of-IsNamed general_tun_addr = made-IsNamed 116 (codes "un_addr") refl refl refl refl refl refl
key_of-IsNamed general_listen_port =
    made-IsNamed 108 (codes "isten_port") refl refl refl refl refl refl
key_of-IsNamed general_metrics_port =
    made-IsNamed 109 (codes "etrics_port") refl refl refl refl refl refl
key_of-IsNamed general_log_level = made-IsNamed 108 (codes "og_level") refl refl refl refl refl refl
key_of-IsNamed general_crypto_key =
    made-IsNamed 99 (codes "rypto_key") refl refl refl refl refl refl
key_of-IsNamed coding_k = made-IsNamed 107 (codes "") refl refl refl refl refl refl
key_of-IsNamed coding_redundancy_ratio =
    made-IsNamed 114 (codes "edundancy_ratio") refl refl refl refl refl refl
key_of-IsNamed coding_block_timeout_ms =
    made-IsNamed 98 (codes "lock_timeout_ms") refl refl refl refl refl refl
key_of-IsNamed coding_max_payload =
    made-IsNamed 109 (codes "ax_payload") refl refl refl refl refl refl
key_of-IsNamed coding_window_size =
    made-IsNamed 119 (codes "indow_size") refl refl refl refl refl refl
key_of-IsNamed strategy_kind = made-IsNamed 116 (codes "ype") refl refl refl refl refl refl
key_of-IsNamed strategy_probe_interval_ms =
    made-IsNamed 112 (codes "robe_interval_ms") refl refl refl refl refl refl
key_of-IsNamed strategy_probe_loss_threshold =
    made-IsNamed 112 (codes "robe_loss_threshold") refl refl refl refl refl refl
key_of-IsNamed strategy_ewma_alpha =
    made-IsNamed 101 (codes "wma_alpha") refl refl refl refl refl refl
key_of-IsNamed forward_ip_forward =
    made-IsNamed 105 (codes "p_forward") refl refl refl refl refl refl
key_of-IsNamed forward_route = made-IsNamed 114 (codes "oute") refl refl refl refl refl refl
key_of-IsNamed path_interface = made-IsNamed 105 (codes "nterface") refl refl refl refl refl refl
key_of-IsNamed path_remote_ip = made-IsNamed 114 (codes "emote_ip") refl refl refl refl refl refl
key_of-IsNamed path_remote_port =
    made-IsNamed 114 (codes "emote_port") refl refl refl refl refl refl
key_of-IsNamed path_weight = made-IsNamed 119 (codes "eight") refl refl refl refl refl refl
key_of-IsNamed path_enabled = made-IsNamed 101 (codes "nabled") refl refl refl refl refl refl
