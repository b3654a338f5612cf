-- ===== src/Config/Stored.antt =====
-- The arrays that src/config.c fills, and the values that it stores for one key.
use coding_gateway.Base.{
  ℕ, zero, suc, ◌+◌, ◌^◌, ◌≤◌, ◌<◌, ◌≡◌, refl, ◌∙◌, arith, List, [], ◌∷◌, Bool, true, false, Option,
  none, some, ltb, ltb→lt, ◌==◌, if◌then◌else◌, Bool-cases, inl, inr, length, get_or, set, take,
  length-set, get_or-set_self, get_or-set_ne, ℤ, pos, negsuc, ltb_ℤ,
}
use native.Mathlib.Decide.{ℕ_discrete}
use coding_gateway.Limits.{max_paths}
use coding_gateway.Float.{FloatOps}
use coding_gateway.Config.{PathConfig, GatewayConfig}
use coding_gateway.Config.Text.{codes, same_text, atoi}
use coding_gateway.Config.Load.{
  to_u16, set_general, set_coding, set_strategy, set_forward, set_path, set_current, clamp,
}

-- The strings fit their arrays of `char`, with the terminator.
pub record AreStrings (mode tun_name tun_addr strategy_type crypto_key : List ℕ) : Type 0 where
  pub mode_fits : length mode < 8
  pub name_fits : length tun_name < 16
  pub addr_fits : length tun_addr < 20
  pub type_fits : length strategy_type < 16
  pub key_fits : length crypto_key < 65

-- The strings of a path fit their arrays, and its port a `uint16_t`.
pub record IsPath (name interface remote_ip : List ℕ) (remote_port : ℕ) : Type 0 where
  pub name_fits : length name < 32
  pub interface_fits : length interface < 16
  pub ip_fits : length remote_ip < 40
  pub port_fits : remote_port < 2 ^ 16

abbrev pub PathFits : {F : Type 0} → PathConfig F → Type 0
PathFits p = IsPath p.name p.interface p.remote_ip p.remote_port

pub record ArePaths {F : Type 0} (paths : ℕ → PathConfig F) (count : ℕ) : Type 0 where
  pub few : count ≤ max_paths
  pub each : (i : ℕ) → PathFits (paths i)

pub record AreRoutes (routes : List (List ℕ)) (count : ℕ) : Type 0 where
  pub few : count ≤ 8
  pub room : length routes ≡ 8
  pub each : (i : ℕ) → length (get_or routes i []) < 48

-- The strings and the entries of the configuration fit their arrays.
pub record IsStored {F : Type 0} (cfg : GatewayConfig F) : Type 0 where
  pub strings : AreStrings cfg.mode cfg.tun_name cfg.tun_addr cfg.strategy_type cfg.crypto_key
  pub paths : ArePaths cfg.paths cfg.path_count
  pub routes : AreRoutes cfg.forward_routes cfg.forward_route_count

-- A number from 1 to `high`.
abbrev pub IsBetween : ℕ → ℤ → Type 0
IsBetween high x = (n : ℕ) × (x ≡ pos n) × (1 ≤ n) × (n ≤ high)

length-take_le {ℓ} : {A : Type ℓ} (n : ℕ) (xs : List A) → length (take n xs) ≤ n
length-take_le zero xs = omega arith
length-take_le (suc n) [] = omega arith
length-take_le (suc n) (x ∷ xs) = omega (arith, length-take_le n xs)

pub short {ℓ} : {A : Type ℓ} (n : ℕ) (xs : List A) → length (take n xs) < suc n
short n xs = omega (arith, length-take_le n xs)

to_u16-small : (x : ℤ) → to_u16 x < 2 ^ 16
unfolding to_u16
to_u16-small (pos n) = omega arith
to_u16-small (negsuc n) = omega arith

capped :
    (high n : ℕ)
    → 1 ≤ high
    → 1 ≤ n
    → IsBetween high (if ltb_ℤ (pos high) (pos n) then pos high else pos n)
capped high n p q = elim (Bool-cases (ltb_ℤ (pos high) (pos n))) [
  | inl e ↦ rw e (high, refl, p, omega arith)
  | inr e ↦ rw e (n, refl, q, ground arith)
]

pub clamp-IsBetween : (high : ℕ) (x : ℤ) → 1 ≤ high → IsBetween high (clamp high x)
unfolding clamp
clamp-IsBetween high (pos n) p = elim (Bool-cases (ltb_ℤ (pos n) (pos 1))) [
  | inl e ↦ rw (e, clamp) (capped high 1 p (omega arith))
  | inr e ↦ rw (e, clamp) (capped high n p (ground arith))
]
clamp-IsBetween high (negsuc n) p = elim (Bool-cases (ltb_ℤ (negsuc n) (pos 1))) [
  | inl e ↦ rw (e, clamp) (capped high 1 p (omega arith))
  | inr e ↦ absurd (ground arith)
]

pub test-IsStored :
    {F : Type 0} (b : Bool) (x y : GatewayConfig F)
    → IsStored x
    → IsStored y
    → IsStored (if b then x else y)
test-IsStored true x y p q = p
test-IsStored false x y p q = q

pub test-PathFits :
    {F : Type 0} (b : Bool) (x y : PathConfig F)
    → PathFits x
    → PathFits y
    → PathFits (if b then x else y)
test-PathFits true x y p q = p
test-PathFits false x y p q = q

module _ {F : Type 0} (ops : FloatOps F) where
  pub set_path-IsPath :
      (key val : List ℕ) (p : PathConfig F) → PathFits p → PathFits (set_path ops key val p)
  unfolding set_path
  set_path-IsPath key val p v =
      test-PathFits (same_text key (codes "interface")) _ _
        (record {
          name_fits = v.name_fits;
          interface_fits = short 15 val;
          ip_fits = v.ip_fits;
          port_fits = v.port_fits;
        })
        (test-PathFits (same_text key (codes "remote_ip")) _ _
          (record {
            name_fits = v.name_fits;
            interface_fits = v.interface_fits;
            ip_fits = short 39 val;
            port_fits = v.port_fits;
          })
          (test-PathFits (same_text key (codes "remote_port")) _ _
            (record {
              name_fits = v.name_fits;
              interface_fits = v.interface_fits;
              ip_fits = v.ip_fits;
              port_fits = to_u16-small (atoi val);
            })
            (test-PathFits (same_text key (codes "weight")) _ _ v
              (test-PathFits (same_text key (codes "enabled")) _ _ v v))))

  pub set_current-IsStored :
      (key val : List ℕ) (current : Option ℕ) (cfg : GatewayConfig F)
      → IsStored cfg
      → IsStored (set_current ops key val current cfg)
  unfolding set_current
  set_current-IsStored key val none cfg v = (record {
    strings = v.strings;
    paths = v.paths;
    routes = v.routes;
  })
  set_current-IsStored key val (some i) cfg v = record {
    strings = v.strings;
    paths = record {
      few = v.paths.few;
      each = λ j.
          test-PathFits (j == i) _ _ (set_path-IsPath key val (cfg.paths i) (v.paths.each i))
            (v.paths.each j);
    };
    routes = v.routes;
  }

  pub set_general-IsStored :
      (key val : List ℕ) (cfg : GatewayConfig F)
      → IsStored cfg
      → IsStored (set_general ops key val cfg)
  unfolding set_general
  set_general-IsStored key val cfg v =
      test-IsStored (same_text key (codes "mode")) _ _
        (record {
          strings = record {
            mode_fits = short 7 val;
            name_fits = v.strings.name_fits;
            addr_fits = v.strings.addr_fits;
            type_fits = v.strings.type_fits;
            key_fits = v.strings.key_fits;
          };
          paths = v.paths;
          routes = v.routes;
        })
        (test-IsStored (same_text key (codes "tun_name")) _ _
          (record {
            strings = record {
              mode_fits = v.strings.mode_fits;
              name_fits = short 15 val;
              addr_fits = v.strings.addr_fits;
              type_fits = v.strings.type_fits;
              key_fits = v.strings.key_fits;
            };
            paths = v.paths;
            routes = v.routes;
          })
          (test-IsStored (same_text key (codes "tun_addr")) _ _
            (record {
              strings = record {
                mode_fits = v.strings.mode_fits;
                name_fits = v.strings.name_fits;
                addr_fits = short 19 val;
                type_fits = v.strings.type_fits;
                key_fits = v.strings.key_fits;
              };
              paths = v.paths;
              routes = v.routes;
            })
            (test-IsStored (same_text key (codes "listen_port")) _ _
              (record { strings = v.strings; paths = v.paths; routes = v.routes })
              (test-IsStored (same_text key (codes "metrics_port")) _ _
                (record { strings = v.strings; paths = v.paths; routes = v.routes })
                (test-IsStored (same_text key (codes "log_level")) _ _
                  (record { strings = v.strings; paths = v.paths; routes = v.routes })
                  (test-IsStored (same_text key (codes "crypto_key")) _ _
                    (record {
                      strings = record {
                        mode_fits = v.strings.mode_fits;
                        name_fits = v.strings.name_fits;
                        addr_fits = v.strings.addr_fits;
                        type_fits = v.strings.type_fits;
                        key_fits = short 64 val;
                      };
                      paths = v.paths;
                      routes = v.routes;
                    })
                    v))))))

  pub set_coding-IsStored :
      (key val : List ℕ) (cfg : GatewayConfig F)
      → IsStored cfg
      → IsStored (set_coding ops key val cfg)
  unfolding set_coding
  set_coding-IsStored key val cfg v =
      test-IsStored (same_text key (codes "k")) _ _
        (record { strings = v.strings; paths = v.paths; routes = v.routes })
        (test-IsStored (same_text key (codes "redundancy_ratio")) _ _
          (record { strings = v.strings; paths = v.paths; routes = v.routes })
          (test-IsStored (same_text key (codes "block_timeout_ms")) _ _
            (record { strings = v.strings; paths = v.paths; routes = v.routes })
            (test-IsStored (same_text key (codes "max_payload")) _ _
              (record { strings = v.strings; paths = v.paths; routes = v.routes })
              (test-IsStored (same_text key (codes "window_size")) _ _
                (record { strings = v.strings; paths = v.paths; routes = v.routes }) v))))

  pub set_strategy-IsStored :
      (key val : List ℕ) (cfg : GatewayConfig F)
      → IsStored cfg
      → IsStored (set_strategy ops key val cfg)
  unfolding set_strategy
  set_strategy-IsStored key val cfg v =
      test-IsStored (same_text key (codes "type")) _ _
        (record {
          strings = record {
            mode_fits = v.strings.mode_fits;
            name_fits = v.strings.name_fits;
            addr_fits = v.strings.addr_fits;
            type_fits = short 15 val;
            key_fits = v.strings.key_fits;
          };
          paths = v.paths;
          routes = v.routes;
        })
        (test-IsStored (same_text key (codes "probe_interval_ms")) _ _
          (record { strings = v.strings; paths = v.paths; routes = v.routes })
          (test-IsStored (same_text key (codes "probe_loss_threshold")) _ _
            (record { strings = v.strings; paths = v.paths; routes = v.routes })
            (test-IsStored (same_text key (codes "ewma_alpha")) _ _
              (record { strings = v.strings; paths = v.paths; routes = v.routes }) v)))

  one_more :
      (routes : List (List ℕ)) (count : ℕ) (val : List ℕ)
      → count < 8
      → AreRoutes routes count
      → AreRoutes (set routes count (take 47 val)) (count + 1)
  one_more routes count val p v = record {
    few = omega arith;
    room = length-set routes count (take 47 val) ∙ v.room;
    each = λ j. elim (ℕ_discrete count j) [
      | yes e ↦ rw (← e) (
          rw (get_or-set_self routes count (take 47 val) [] (omega (arith, v.room))) (short 47 val))
      | no ne ↦ rw (get_or-set_ne routes count j (take 47 val) [] ne) (v.each j)
    ];
  }

  pub set_forward-IsStored :
      (key val : List ℕ) (cfg : GatewayConfig F)
      → IsStored cfg
      → IsStored (set_forward ops key val cfg)
  unfolding set_forward
  set_forward-IsStored key val cfg v =
      test-IsStored (same_text key (codes "ip_forward")) _ _
        (record { strings = v.strings; paths = v.paths; routes = v.routes })
        (test-IsStored (same_text key (codes "route")) _ _
          (elim (Bool-cases (ltb cfg.forward_route_count 8)) [
            | inl e ↦ rw e (record {
              strings = v.strings;
              paths = v.paths;
              routes =
                  one_more cfg.forward_routes cfg.forward_route_count val
                    (ltb→lt cfg.forward_route_count 8 e) v.routes;
            })
            | inr e ↦ rw e (record { strings = v.strings; paths = v.paths; routes = v.routes })
          ])
          (record { strings = v.strings; paths = v.paths; routes = v.routes }))
