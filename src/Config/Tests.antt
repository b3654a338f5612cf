-- ===== src/Config/Tests.antt =====
-- A small configuration file.
use coding_gateway.Base.{ℕ, ◌≡◌, refl, List, [], ◌∷◌, ◌++◌, Option, none, some, ℤ, pos}
use coding_gateway.Float.Whole.{whole}
use coding_gateway.Config.{GatewayConfig}
use coding_gateway.Config.Text.{codes, trim, atoi, text, split_at, same_text, lines_within}
use coding_gateway.Config.Load.{
  Loading, defaults, load_pair, load_line, config_load, load_trimmed, load_header, clamp,
  set_coding, set_current, set_path, to_u16,
}
use coding_gateway.Config.Bounds.{IsLoaded, config_load-IsLoaded}

abbrev file : List ℕ
file =
    codes "# gateway"
    ++ (10 ∷ codes "[coding]")
    ++ (10 ∷ codes " k = 40 ")
    ++ (10 ∷ codes "[path.lte]")
    ++ (10 ∷ codes "remote_port=5001")
    ++ (10 ∷ [])

abbrev summary : Option (GatewayConfig ℕ) → Option (ℤ × ℕ × ℕ)
summary none = none
summary (some cfg) = some (cfg.k, cfg.path_count, (cfg.paths 0).remote_port)

file_loaded : summary (config_load whole (some file)) ≡ some (pos 16, 1, 5001)
unfolding config_load load_line load_trimmed load_header load_pair clamp trim text split_at
    same_text set_coding set_current set_path atoi to_u16 lines_within defaults
file_loaded = refl

config_load-IsLoaded_example :
    (config_load whole none ≡ none)
    × ((cfg : GatewayConfig ℕ) × (config_load whole (some file) ≡ some cfg) × IsLoaded cfg)
config_load-IsLoaded_example = config_load-IsLoaded whole file

-- In the section of the coding.
abbrev in_coding : Loading ℕ
in_coding = record { cfg = defaults whole; section = codes "coding"; cur_path = none }

k_is_set : (load_line whole in_coding (codes "  k = 4 ")).cfg.k ≡ pos 4
unfolding load_line load_trimmed load_pair trim text split_at same_text set_coding atoi
k_is_set = refl
