-- ===== src/Codec/Pivot.antt =====
-- One round of the elimination of `decode_block`, row by row.
use coding_gateway.Base.{
  ℕ, zero, suc, ◌+◌, ◌-◌, ◌≤◌, ◌<◌, ◌≡◌, ◌≢◌, refl, sym, ap, ◌∙◌, arith, List, [], ◌∷◌, length,
  get_or, get_or-set_self, get_or-set_ne, length-set, set, ◌==◌, if◌then◌else◌, false, inl, inr,
  Bool-cases, ==_iff, none, some,
}
use coding_gateway.Gf256.{gf256_inv}
use coding_gateway.Codec.{Shard}
use coding_gateway.Codec.Decode.{
  blank, entry, find_pivot, swap_rows, scale_row, eliminate_row, eliminate_rows, reduce,
}

pub find_pivot-some :
    (rows : List Shard) (col row p : ℕ)
    → find_pivot rows col row ≡ some p
    → (row ≤ p) × (p < row + length rows) × (entry rows (p - row) col ≢ 0)
unfolding find_pivot
find_pivot-some [] col row p h = absurd (cc)
find_pivot-some (r ∷ rows) col row p h = elim (Bool-cases (get_or r.coeffs col 0 == 0)) [
  | inl e ↦ later (find_pivot-some rows col (row + 1) p (rw e at h))
  | inr e ↦ here e (rw e at h)
]
  where
    later :
        (row + 1 ≤ p) × (p < row + 1 + length rows) × (entry rows (p - (row + 1)) col ≢ 0)
        → (row ≤ p) × (p < row + length (r ∷ rows)) × (entry (r ∷ rows) (p - row) col ≢ 0)
    later t =
        let e : p - row ≡ suc (p - (row + 1)) = omega arith in (omega arith, omega arith, rw e t.2)

    here :
        (get_or r.coeffs col 0 == 0) ≡ false
        → some row ≡ some p
        → (row ≤ p) × (p < row + length (r ∷ rows)) × (entry (r ∷ rows) (p - row) col ≢ 0)
    here e q =
        let same : row ≡ p = cc in
        let z : p - row ≡ 0 = omega arith in (omega arith, omega arith, rw z (ground arith))

pub find_pivot-none :
    (rows : List Shard) (col row i : ℕ)
    → find_pivot rows col row ≡ none
    → i < length rows
    → entry rows i col ≡ 0
unfolding find_pivot
find_pivot-none [] col row i h p = absurd (omega arith)
find_pivot-none (r ∷ rows) col row zero h p = ground arith
find_pivot-none (r ∷ rows) col row (suc i) h p =
    find_pivot-none rows col (row + 1) i (ground arith) (omega arith)

-- The row that stands at `m` after the swap of rows `i` and `j`.
abbrev pub swap_index : ℕ → ℕ → ℕ → ℕ
swap_index i j m = if m == j then i else if m == i then j else m

get_or-swap_rows :
    (rows : List Shard) (i j m : ℕ)
    → i < length rows
    → j < length rows
    → get_or (swap_rows rows i j) m blank ≡ get_or rows (swap_index i j m) blank
unfolding swap_rows
get_or-swap_rows rows i j m p q = elim (Bool-cases (m == j)) [
  | inl e ↦
      let at_j : m ≡ j = (==_iff m j).0 e in
      rw (e, at_j)
        (get_or-set_self (set rows i (get_or rows j blank)) j _ blank
          (omega (arith, length-set rows i (get_or rows j blank))))
  | inr e ↦
      let off_j : j ≢ m = ground arith in
      rw (e, get_or-set_ne (set rows i (get_or rows j blank)) j m (get_or rows i blank) blank off_j)
        (rest off_j)
]
  where
    rest :
        j ≢ m
        → get_or (set rows i (get_or rows j blank)) m blank
          ≡ get_or rows (if m == i then j else m) blank
    rest off_j = elim (Bool-cases (m == i)) [
      | inl e ↦
          let at_i : m ≡ i = (==_iff m i).0 e in
          rw (e, at_i) (get_or-set_self rows i (get_or rows j blank) blank p)
      | inr e ↦ rw e (get_or-set_ne rows i m (get_or rows j blank) blank (ground arith))
    ]

get_or-eliminate_rows :
    (k col : ℕ) (pivot : Shard) (row i j : ℕ) (rows : List Shard)
    → i < length rows
    → j ≡ row + i
    → get_or (eliminate_rows k col pivot row rows) i blank
      ≡ eliminate_row k col pivot j (get_or rows i blank)
unfolding eliminate_rows
get_or-eliminate_rows k col pivot row i j [] p e = absurd (omega arith)
get_or-eliminate_rows k col pivot row zero j (r ∷ rows) p e =
    ap (λ t. eliminate_row k col pivot t r) (omega arith)
get_or-eliminate_rows k col pivot row (suc i) j (r ∷ rows) p e =
    get_or-eliminate_rows k col pivot (row + 1) i j rows (omega arith) (omega arith)

length-eliminate_rows :
    (k col : ℕ) (pivot : Shard) (row : ℕ) (rows : List Shard)
    → length (eliminate_rows k col pivot row rows) ≡ length rows
unfolding eliminate_rows
length-eliminate_rows k col pivot row [] = refl
length-eliminate_rows k col pivot row (r ∷ rows) =
    ap suc (length-eliminate_rows k col pivot (row + 1) rows)

-- The pivot row, scaled so that its entry in the column is 1.
abbrev pub unit_row : ℕ → ℕ → List Shard → ℕ → Shard
unit_row k col rows pivot = scale_row k (gf256_inv (entry rows pivot col)) (get_or rows pivot blank)

module _ (k col : ℕ) (rows : List Shard) (pivot : ℕ) (col_in : col < length rows)
    (pivot_in : pivot < length rows) where
  abbrev swapped : List Shard
  swapped = if pivot == col then rows else swap_rows rows col pivot

  get_or-swapped : (m : ℕ) → get_or swapped m blank ≡ get_or rows (swap_index col pivot m) blank
  get_or-swapped m = elim (Bool-cases (pivot == col)) [
    | inl e ↦ rw e (ap (λ t. get_or rows t blank) (ground arith))
    | inr e ↦ rw e (get_or-swap_rows rows col pivot m col_in pivot_in)
  ]

  length-swapped : length swapped ≡ length rows
  length-swapped = elim (Bool-cases (pivot == col)) [
    | inl e ↦ rw e refl
    | inr e ↦ rw e (
        unfold swap_rows in
        length-set (set rows col (get_or rows pivot blank)) pivot _
        ∙ length-set rows col (get_or rows pivot blank))
  ]

  swap_index_col : swap_index col pivot col ≡ pivot
  swap_index_col = ground arith

  chosen : get_or swapped col blank ≡ get_or rows pivot blank
  chosen = get_or-swapped col ∙ ap (λ t. get_or rows t blank) swap_index_col

  reduce_lem :
      reduce k col rows pivot
      ≡ eliminate_rows k col
          (unit_row k col rows pivot)
          0
          (set swapped col (unit_row k col rows pivot))
  unfolding reduce
  reduce_lem = rw chosen refl

  pub length-reduce : length (reduce k col rows pivot) ≡ length rows
  length-reduce =
      rw reduce_lem (length-eliminate_rows k col _ 0 _ ∙ length-set swapped col _ ∙ length-swapped)

  -- The pivot row of the new matrix.
  pub reduce_row_self : get_or (reduce k col rows pivot) col blank ≡ unit_row k col rows pivot
  reduce_row_self =
      rw
        (
          reduce_lem,
          get_or-eliminate_rows k col (unit_row k col rows pivot) 0 col col
              (set swapped col (unit_row k col rows pivot))
              (omega (arith, length-swapped, length-set swapped col (unit_row k col rows pivot)))
              (omega arith),
          get_or-set_self swapped col (unit_row k col rows pivot) blank
              (omega (arith, length-swapped)),
        )
        (unfold eliminate_row in rw ((==_iff col col).1 refl) refl)

  -- Every other row of the new matrix.
  pub reduce_row_ne :
      (m : ℕ)
      → m < length rows
      → m ≢ col
      → get_or (reduce k col rows pivot) m blank
        ≡ eliminate_row k col
            (unit_row k col rows pivot)
            m
            (get_or rows (swap_index col pivot m) blank)
  reduce_row_ne m p ne =
      rw
        (
          reduce_lem,
          get_or-eliminate_rows k col (unit_row k col rows pivot) 0 m m
              (set swapped col (unit_row k col rows pivot))
              (omega (arith, length-swapped, length-set swapped col (unit_row k col rows pivot)))
              (omega arith),
          get_or-set_ne swapped col m (unit_row k col rows pivot) blank (λ e. ne (sym e)),
          get_or-swapped m,
        )
        refl
