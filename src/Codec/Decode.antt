-- ===== src/Codec/Decode.antt =====
-- `decode_block` of src/codec.c. A row of `mat` with that of `dat` and its `dlen` is a `Shard`.
use coding_gateway.Base.{
  ℕ, zero, suc, ◌+◌, List, [], ◌∷◌, ◌==◌, ltb, if◌then◌else◌, get_or, set, take, drop, memcpy,
  Option, none, some, ◌||◌, map,
}
use coding_gateway.Gf256.{gf256_mul, gf256_inv}
use coding_gateway.Codec.{Shard, gf_vec_axpy}

abbrev pub blank : Shard
blank = record { coeffs = []; payload = []; len = 0 }

-- What `out[i]` and `out_len[i]` receive.
pub record Packet : Type 0 where
  pub bytes : List ℕ
  pub len : ℕ

-- The first loop, with the number of shards left. `stack` is what `dat` held before.
unfoldable pub load_rows : ℕ → ℕ → List (List ℕ) → List Shard → List Shard
load_rows k zero stack shards = []
load_rows k (suc left) [] shards = []
load_rows k (suc left) (d ∷ stack) [] = []
load_rows k (suc left) (d ∷ stack) (s ∷ shards) =
    (record s { coeffs = take k s.coeffs; payload = memcpy d s.payload s.len })
    ∷ load_rows k left stack shards

abbrev pub entry : List Shard → ℕ → ℕ → ℕ
entry rows row col = get_or (get_or rows row blank).coeffs col 0

-- The search for the pivot among the rows from `row` on.
unfoldable pub find_pivot : List Shard → ℕ → ℕ → Option ℕ
find_pivot [] col row = none
find_pivot (r ∷ rows) col row =
    if get_or r.coeffs col 0 == 0 then find_pivot rows col (row + 1) else some row

unfoldable pub swap_rows : List Shard → ℕ → ℕ → List Shard
swap_rows rows i j = set (set rows i (get_or rows j blank)) j (get_or rows i blank)

-- `v[j] = a * v[j]` for `j` in `[0, n)`.
unfoldable pub scale_first : ℕ → List ℕ → ℕ → List ℕ
unfolding gf256_mul
scale_first a v zero = v
scale_first a [] (suc n) = []
scale_first a (x ∷ v) (suc n) = gf256_mul a x ∷ scale_first a v n

unfoldable pub scale_row : ℕ → ℕ → Shard → Shard
unfolding scale_first
scale_row k inv r = record r {
  coeffs = scale_first inv r.coeffs k;
  payload = scale_first inv r.payload r.len;
}

unfoldable pub eliminate_row : ℕ → ℕ → Shard → ℕ → Shard → Shard
unfolding gf_vec_axpy
eliminate_row k col pivot row r =
    let factor = get_or r.coeffs col 0 in
    let data_len = if ltb pivot.len r.len then r.len else pivot.len in
    if (row == col) || (factor == 0) then r else record r {
      coeffs = gf_vec_axpy r.coeffs factor pivot.coeffs k;
      payload = gf_vec_axpy r.payload factor pivot.payload data_len;
    }

-- The loop over the rows from `row` on; it leaves the pivot row as it is.
unfoldable pub eliminate_rows : ℕ → ℕ → Shard → ℕ → List Shard → List Shard
unfolding eliminate_row
eliminate_rows k col pivot row [] = []
eliminate_rows k col pivot row (r ∷ rows) =
    eliminate_row k col pivot row r ∷ eliminate_rows k col pivot (row + 1) rows

-- The loop body once row `pivot` is found.
unfoldable pub reduce : ℕ → ℕ → List Shard → ℕ → List Shard
unfolding swap_rows scale_row eliminate_rows gf256_inv
reduce k col rows pivot =
    let swapped = if pivot == col then rows else swap_rows rows col pivot in
    let chosen = get_or swapped col blank in
    let unit = scale_row k (gf256_inv (get_or chosen.coeffs col 0)) chosen in
    eliminate_rows k col unit 0 (set swapped col unit)

-- The loop over the columns from `col` on, with the number of columns left.
unfoldable pub gauss_jordan : ℕ → ℕ → ℕ → List Shard → Option (List Shard)
unfolding find_pivot reduce
gauss_jordan k zero col rows = some rows
gauss_jordan k (suc left) col rows = elim (find_pivot (drop col rows) col col) [
  | none ↦ none
  | some pivot ↦ gauss_jordan k left (col + 1) (reduce k col rows pivot)
]

abbrev pub recovered : Shard → Packet
recovered r = record { bytes = take r.len r.payload; len = r.len }

-- `none` is the return value -1.
unfoldable pub decode_block : List (List ℕ) → List Shard → ℕ → Option (List Packet)
unfolding load_rows gauss_jordan
decode_block stack shards k = elim (gauss_jordan k k 0 (load_rows k k stack shards)) [
  | none ↦ none
  | some rows ↦ some (map recovered rows)
]
