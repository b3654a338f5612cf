-- ===== src/Config/Bounds.antt =====
-- Every configuration that src/config.c loads.
use coding_gateway.Base.{
  ℕ, zero, suc, ◌<◌, ◌≡◌, refl, arith, List, [], ◌∷◌, none, some, ltb, ◌==◌, Bool-cases,
  Option-cases, inl, inr, length, get_or, take, drop, replicate,
}
use coding_gateway.Limits.{max_paths, max_k, max_window, max_payload}
use coding_gateway.Float.{FloatOps}
use coding_gateway.Config.{GatewayConfig}
use coding_gateway.Config.Text.{codes, same_text, text, trim, split_at, lines}
use coding_gateway.Config.Load.{
  Loading, defaults, load_header, load_pair, load_trimmed, load_line, load_lines, clamped,
  start_loading, config_load,
}
use coding_gateway.Config.Stored.{
  IsStored, IsBetween, short, clamp-IsBetween, test-IsStored, test-PathFits, set_current-IsStored,
  set_general-IsStored, set_coding-IsStored, set_strategy-IsStored, set_forward-IsStored,
}

pub record IsLoaded {F : Type 0} (cfg : GatewayConfig F) : Type 0 where
  pub stored : IsStored cfg
  pub k_ok : IsBetween max_k cfg.k
  pub window_ok : IsBetween max_window cfg.window_size
  pub payload_ok : IsBetween max_payload cfg.max_payload

abbrev eight_routes : List (List ℕ)
eight_routes = replicate 8 []

no_route : (n i : ℕ) → length (get_or (replicate n (codes "")) i []) < 48
no_route zero i = omega arith
no_route (suc n) zero = omega arith
no_route (suc n) (suc i) = no_route n i

module _ {F : Type 0} (ops : FloatOps F) where
  defaults-IsStored : IsStored (defaults ops)
  unfolding defaults
  defaults-IsStored = record {
    strings = record {
      mode_fits = omega arith;
      name_fits = omega arith;
      addr_fits = omega arith;
      type_fits = omega arith;
      key_fits = omega arith;
    };
    paths = record {
      few = omega arith;
      each = λ i. record {
        name_fits = omega arith;
        interface_fits = omega arith;
        ip_fits = omega arith;
        port_fits = omega arith;
      };
    };
    routes = record { few = omega arith; room = refl; each = no_route 8 };
  }

  load_header-IsStored :
      (before : List ℕ) (st : Loading F)
      → IsStored st.cfg
      → IsStored (load_header ops before st).cfg
  unfolding load_header
  load_header-IsStored before st v =
      elim (Bool-cases (same_text (take 5 (take 63 (trim before))) (codes "path."))) [
        | inr e ↦ rw (e, load_header) v
        | inl e ↦ elim (Bool-cases (ltb st.cfg.path_count max_paths)) [
          | inr f ↦ rw (e, f, load_header) v
          | inl f ↦
              rw (e, f, load_header)
                (record {
                  strings = v.strings;
                  paths = record {
                    few = ground arith;
                    each = λ i.
                        test-PathFits (i == st.cfg.path_count) _ _
                          (record {
                            name_fits = short 31 (drop 5 (take 63 (trim before)));
                            interface_fits = omega arith;
                            ip_fits = omega arith;
                            port_fits = omega arith;
                          })
                          (v.paths.each i);
                  };
                  routes = v.routes;
                })
        ]
      ]

  load_pair-IsStored :
      (key val : List ℕ) (st : Loading F)
      → IsStored st.cfg
      → IsStored (load_pair ops key val st).cfg
  unfolding load_pair
  load_pair-IsStored key val st v =
      test-IsStored (same_text st.section (codes "general")) _ _
        (set_general-IsStored ops key val st.cfg v)
        (test-IsStored (same_text st.section (codes "coding")) _ _
          (set_coding-IsStored ops key val st.cfg v)
          (test-IsStored (same_text st.section (codes "strategy")) _ _
            (set_strategy-IsStored ops key val st.cfg v)
            (test-IsStored (same_text st.section (codes "forward")) _ _
              (set_forward-IsStored ops key val st.cfg v)
              (set_current-IsStored ops key val st.cur_path st.cfg v))))

  load_trimmed-IsStored :
      (s : List ℕ) (st : Loading F) → IsStored st.cfg → IsStored (load_trimmed ops s st).cfg
  unfolding load_trimmed
  load_trimmed-IsStored [] st v = v
  load_trimmed-IsStored (c ∷ rest) st v = elim (Bool-cases (c == 35)) [
    | inl e ↦ rw (e, load_trimmed) v
    | inr e ↦ elim (Bool-cases (c == 91)) [
      | inl f ↦ elim (Option-cases (split_at 93 rest)) [
        | inl none_found ↦ rw (e, f, none_found, load_trimmed) v
        | inr ((before, after), found) ↦
            rw (e, f, found, load_trimmed) (load_header-IsStored before st v)
      ]
      | inr f ↦ elim (Option-cases (split_at 61 (c ∷ rest))) [
        | inl none_found ↦ rw (e, f, none_found, load_trimmed) v
        | inr ((before, after), found) ↦
            rw (e, f, found, load_trimmed) (load_pair-IsStored (trim before) (trim after) st v)
      ]
    ]
  ]

  load_lines-IsStored :
      (st : Loading F) (all : List (List ℕ))
      → IsStored st.cfg
      → IsStored (load_lines ops st all).cfg
  unfolding load_line
  load_lines-IsStored st [] v = v
  load_lines-IsStored st (line ∷ rest) v =
      load_lines-IsStored (load_line ops st line) rest
        (load_trimmed-IsStored (trim (text line)) st v)

  -- `config_load` fails only when the file cannot be Opened. Whatever the bytes of the file are, it
  -- then gives a configuration of at most 8 paths and 8 routes, whose strings fit their arrays, with
  -- `k` and `window_size` from 1 to 16 and `max_payload` from 1 to 1400.
  pub config_load-IsLoaded :
      (file : List ℕ)
      → (config_load ops none ≡ none)
        × ((cfg : GatewayConfig F) × (config_load ops (some file) ≡ some cfg) × IsLoaded cfg)
  unfolding config_load clamped
  config_load-IsLoaded file =
      let v = load_lines-IsStored (start_loading ops) (lines file) defaults-IsStored in
      let cfg = (load_lines ops (start_loading ops) (lines file)).cfg in
      (
        refl,
        (
          clamped cfg,
          refl,
          record {
            stored = record { strings = v.strings; paths = v.paths; routes = v.routes };
            k_ok = clamp-IsBetween max_k cfg.k (omega arith);
            window_ok = clamp-IsBetween max_window cfg.window_size (omega arith);
            payload_ok = clamp-IsBetween max_payload cfg.max_payload (omega arith);
          },
        ),
      )
