-- ===== src/Codec/Reduced.antt =====
-- The invariant of the elimination of `decode_block`: every row is still a combination of the
-- source packets, and the columns done so far are those of the identity matrix.
use coding_gateway.Base.{
  ℕ, ◌+◌, ◌≤◌, ◌<◌, ◌≡◌, ◌≢◌, refl, sym, ◌∙◌, arith, List, length, get_or, ◌==◌, ◌⊕◌, false, inl,
  inr, Bool-cases, ==_iff, xor_self, xor-zero,
}
use native.Mathlib.Decide.{ℕ_discrete}
use coding_gateway.Gf256.{gf256_mul, gf256_inv}
use coding_gateway.Gf256.Field.{inv-mul, inv-lt, mul-zero, zero-mul, mul-one}
use coding_gateway.Codec.{Shard}
use coding_gateway.Codec.Decode.{blank, entry, scale_row, eliminate_row, reduce}
use coding_gateway.Codec.Dot.{
  AreBytes, dot, dot-lt, delta, delta_self, delta_ne, get_or-scale_first, get_or-axpy, dot-axpy,
}
use coding_gateway.Codec.Row.{IsRow, AreBytePackets, scale_row-IsRow, eliminate_row-IsRow}
use coding_gateway.Codec.Pivot.{swap_index, unit_row, length-reduce, reduce_row_self, reduce_row_ne}

pub record IsReduced (k l : ℕ) (xs : List (List ℕ)) (col : ℕ) (rows : List Shard) : Type 0 where
  pub count : length rows ≡ k
  pub are_rows : (m : ℕ) → m < k → IsRow k l xs (get_or rows m blank)
  pub identity : (m c : ℕ) → m < k → c < col → entry rows m c ≡ delta c m

module _ {k l : ℕ} {xs : List (List ℕ)} where
  entry-scale_row :
      (a : ℕ) (r : Shard) (c : ℕ)
      → IsRow k l xs r
      → c < k
      → get_or (scale_row k a r).coeffs c 0 ≡ gf256_mul a (get_or r.coeffs c 0)
  unfolding scale_row
  entry-scale_row a r c v p = get_or-scale_first a r.coeffs k c (omega (arith, v.width)) p

  entry-eliminate_row :
      (col m : ℕ) (u r : Shard) (c : ℕ)
      → IsRow k l xs u
      → IsRow k l xs r
      → m ≢ col
      → c < k
      → get_or (eliminate_row k col u m r).coeffs c 0
        ≡ get_or r.coeffs c 0 ⊕ gf256_mul (get_or r.coeffs col 0) (get_or u.coeffs c 0)
  unfolding eliminate_row
  entry-eliminate_row col m u r c uv rv ne p = elim (Bool-cases (get_or r.coeffs col 0 == 0)) [
    | inl e ↦
        let z : get_or r.coeffs col 0 ≡ 0 = (==_iff _ 0).0 e in
        rw (other, e, z, zero-mul (get_or u.coeffs c 0) (uv.coeff_bytes c), xor-zero) refl
    | inr e ↦
        rw (other, e)
          (get_or-axpy r.coeffs (get_or r.coeffs col 0) u.coeffs k c (omega (arith, rv.width))
            (omega (arith, uv.width)) p)
  ]
    where
      other : (m == col) ≡ false
      other = ground arith

  pub dot-eliminate_row :
      (col m : ℕ) (u r : Shard) (v : List ℕ)
      → IsRow k l xs u
      → IsRow k l xs r
      → m ≢ col
      → AreBytes v
      → dot (eliminate_row k col u m r).coeffs v
        ≡ dot r.coeffs v ⊕ gf256_mul (get_or r.coeffs col 0) (dot u.coeffs v)
  unfolding eliminate_row
  dot-eliminate_row col m u r v uv rv ne h = elim (Bool-cases (get_or r.coeffs col 0 == 0)) [
    | inl e ↦
        let z : get_or r.coeffs col 0 ≡ 0 = (==_iff _ 0).0 e in
        rw (other, e, z, zero-mul (dot u.coeffs v) (dot-lt u.coeffs v uv.coeff_bytes), xor-zero)
          refl
    | inr e ↦
        rw (other, e)
          (dot-axpy r.coeffs (get_or r.coeffs col 0) u.coeffs v k rv.width uv.width
            (rv.coeff_bytes col) rv.coeff_bytes uv.coeff_bytes h)
  ]
    where
      other : (m == col) ≡ false
      other = ground arith

-- A pivot that `find_pivot` returns in the column `col`.
pub record IsPivot (k col : ℕ) (rows : List Shard) (pivot : ℕ) : Type 0 where
  pub below : col ≤ pivot
  pub inside : pivot < k
  pub nonzero : entry rows pivot col ≢ 0

pub swap_index-lt : (col pivot m k : ℕ) → col < k → pivot < k → m < k → swap_index col pivot m < k
swap_index-lt col pivot m k p q r = ground arith

module _ {k l : ℕ} {xs : List (List ℕ)} (xs_bytes : AreBytePackets xs) (col : ℕ) (rows : List Shard)
    (pivot : ℕ) (ok : IsReduced k l xs col rows) (is : IsPivot k col rows pivot) where
  abbrev pub unit : Shard
  unit = unit_row k col rows pivot

  pub pivot-IsRow : IsRow k l xs (get_or rows pivot blank)
  pivot-IsRow = ok.are_rows pivot is.inside

  pub unit-IsRow : IsRow k l xs unit
  unit-IsRow =
      scale_row-IsRow xs_bytes (gf256_inv (entry rows pivot col)) (get_or rows pivot blank)
        (inv-lt _ is.nonzero (pivot-IsRow.coeff_bytes col)) pivot-IsRow

  entry_unit :
      (c : ℕ)
      → c < k
      → get_or unit.coeffs c 0 ≡ gf256_mul (gf256_inv (entry rows pivot col)) (entry rows pivot c)
  entry_unit c p =
      entry-scale_row (gf256_inv (entry rows pivot col)) (get_or rows pivot blank) c pivot-IsRow p

  unit_done : (c : ℕ) → c < col → get_or unit.coeffs c 0 ≡ 0
  unit_done c p =
      rw
        (
          entry_unit c (omega (arith, is.below, is.inside)),
          ok.identity pivot c is.inside p,
          delta_ne c pivot (omega (arith, is.below)),
        )
        (mul-zero _)

  unit_one : get_or unit.coeffs col 0 ≡ 1
  unit_one =
      entry_unit col (omega (arith, is.below, is.inside))
      ∙ inv-mul _ is.nonzero (pivot-IsRow.coeff_bytes col)

  count_in : (col < length rows) × (pivot < length rows)
  count_in = (omega (arith, is.below, is.inside, ok.count), omega (arith, is.inside, ok.count))

  abbrev pub source : ℕ → Shard
  source m = get_or rows (swap_index col pivot m) blank

  pub source-IsRow : (m : ℕ) → m < k → IsRow k l xs (source m)
  source-IsRow m p =
      ok.are_rows _ (swap_index-lt col pivot m k (omega (arith, is.below, is.inside)) is.inside p)

  source_done : (m c : ℕ) → m < k → m ≢ col → c < col → get_or (source m).coeffs c 0 ≡ delta c m
  source_done m c p ne q = elim (ℕ_discrete m pivot) [
    | yes e ↦
        let i : swap_index col pivot m ≡ col = ground arith in
        rw
          (
            i,
            ok.identity col c (omega (arith, is.below, is.inside)) q,
            delta_ne c col (omega arith),
          )
          (sym (delta_ne c m (omega (arith, is.below))))
    | no n ↦ let i : swap_index col pivot m ≡ m = ground arith in rw i (ok.identity m c p q)
  ]

  pub row_ne :
      (m : ℕ)
      → m < k
      → m ≢ col
      → get_or (reduce k col rows pivot) m blank ≡ eliminate_row k col unit m (source m)
  row_ne m p ne =
      reduce_row_ne k col rows pivot count_in.0 count_in.1 m (omega (arith, ok.count)) ne

  pub row_self : get_or (reduce k col rows pivot) col blank ≡ unit
  row_self = reduce_row_self k col rows pivot count_in.0 count_in.1

  new-IsRow : (m : ℕ) → m < k → IsRow k l xs (get_or (reduce k col rows pivot) m blank)
  new-IsRow m p = elim (ℕ_discrete m col) [
    | yes e ↦ rw (e, row_self) unit-IsRow
    | no ne ↦
        rw (row_ne m p ne)
          (eliminate_row-IsRow xs_bytes col m unit (source m) unit-IsRow (source-IsRow m p))
  ]

  new_entry_self : (c : ℕ) → c < col + 1 → get_or unit.coeffs c 0 ≡ delta c col
  new_entry_self c q = elim (ℕ_discrete c col) [
    | yes e ↦ rw e (unit_one ∙ sym (delta_self col))
    | no ne ↦ unit_done c (omega arith) ∙ sym (delta_ne c col ne)
  ]

  new_entry_ne :
      (m c : ℕ)
      → m < k
      → m ≢ col
      → c < col + 1
      → get_or (eliminate_row k col unit m (source m)).coeffs c 0 ≡ delta c m
  new_entry_ne m c p ne q =
      entry-eliminate_row col m unit (source m) c unit-IsRow (source-IsRow m p) ne
        (omega (arith, is.below, is.inside))
      ∙ elim (ℕ_discrete c col) [
        | yes e ↦
            rw (e, unit_one, mul-one _ ((source-IsRow m p).coeff_bytes col), xor_self)
              (sym (delta_ne col m (λ d. ne (sym d))))
        | no nc ↦
            rw (unit_done c (omega arith), mul-zero (get_or (source m).coeffs col 0), xor-zero)
              (source_done m c p ne (omega arith))
      ]

  -- One round keeps the invariant and completes one more column.
  pub reduce-IsReduced : IsReduced k l xs (col + 1) (reduce k col rows pivot)
  reduce-IsReduced = record {
    count = length-reduce k col rows pivot count_in.0 count_in.1 ∙ ok.count;
    are_rows = new-IsRow;
    identity = λ m c p q. elim (ℕ_discrete m col) [
      | yes e ↦ rw (e, row_self) (new_entry_self c q)
      | no ne ↦ rw (row_ne m p ne) (new_entry_ne m c p ne q)
    ];
  }
