-- ===== src/Limits.antt =====
-- include/common.h: the sizes of the fixed arrays.
use coding_gateway.Base.{ℕ}

abbrev pub max_paths : ℕ
max_paths = 8

abbrev pub max_k : ℕ
max_k = 16

abbrev pub max_n : ℕ
max_n = 32

abbrev pub max_payload : ℕ
max_payload = 1400

abbrev pub max_window : ℕ
max_window = 16
