-- ===== src/Codec/Kernel.antt =====
-- The rounds of `decode_block` neither gain nor lose a linear relation among the columns, and a
-- column without a pivot is one.
use coding_gateway.Base.{
  ℕ, zero, suc, ◌+◌, ◌-◌, ◌≤◌, ◌<◌, ◌≡◌, ◌≢◌, refl, sym, ap, ap₂, ◌∙◌, arith, List, [], ◌∷◌, ◌++◌,
  length, get_or, take, drop, replicate, map, get_or-map, get_or-take, get_or-drop, length-map,
  length-take, length-append, length-replicate, get_or-replicate, get_or_of_ge, ◌⊕◌, xor_self,
  xor-zero,
}
use native.Mathlib.Decide.{ℕ_discrete, dec_lt}
use coding_gateway.Gf256.{gf256_mul, gf256_inv}
use coding_gateway.Gf256.Field.{mul-inv, inv-lt, mul-zero, mul-one, mul_assoc, one-mul}
use coding_gateway.Codec.{Shard}
use coding_gateway.Codec.Decode.{blank, entry, scale_row, reduce}
use coding_gateway.Codec.Dot.{
  AreBytes, dot, dot-lt, dot-scale_first, delta_ne, dot_of_unit, dot_of_zeros, dot-append,
}
use coding_gateway.Codec.Row.{AreBytePackets}
use coding_gateway.Codec.Pivot.{swap_index, unit_row}
use coding_gateway.Codec.Reduced.{
  IsReduced, IsPivot, unit-IsRow, row_ne, row_self, source, source-IsRow, dot-eliminate_row,
  pivot-IsRow,
}

-- `v` is a relation among the first `k` columns of the rows.
abbrev pub Kills : ℕ → List Shard → List ℕ → Type 0
Kills k rows v = (m : ℕ) → m < k → dot (get_or rows m blank).coeffs v ≡ 0

-- The coefficients of the rows are linearly dependent: some bytes, not all 0, form a relation.
pub record IsDependent (k : ℕ) (rows : List Shard) : Type 0 where
  pub relation : List ℕ
  pub size : length relation ≡ k
  pub are_bytes : AreBytes relation
  pub kills : Kills k rows relation
  pub place : ℕ
  pub nonzero : get_or relation place 0 ≢ 0

dot-zeros : (cs : List ℕ) (n : ℕ) → dot cs (replicate n 0) ≡ 0
unfolding dot
dot-zeros [] n = refl
dot-zeros (c ∷ cs) zero = refl
dot-zeros (c ∷ cs) (suc n) = rw (mul-zero c, dot-zeros cs n) (xor_self 0)

dot-one_zeros : (cs : List ℕ) (n : ℕ) → AreBytes cs → dot cs (1 ∷ replicate n 0) ≡ get_or cs 0 0
unfolding dot
dot-one_zeros [] n h = refl
dot-one_zeros (c ∷ cs) n h = rw (mul-one c (h 0), dot-zeros cs n) (xor-zero c)

module _ {k l : ℕ} {xs : List (List ℕ)} (xs_bytes : AreBytePackets xs) (col : ℕ) (rows : List Shard)
    (pivot : ℕ) (ok : IsReduced k l xs col rows) (is : IsPivot k col rows pivot) (v : List ℕ)
    (v_bytes : AreBytes v) where
  abbrev inverse : ℕ
  inverse = gf256_inv (entry rows pivot col)

  abbrev pivot_row : Shard
  pivot_row = get_or rows pivot blank

  dot-unit : dot (unit_row k col rows pivot).coeffs v ≡ gf256_mul inverse (dot pivot_row.coeffs v)
  unfolding scale_row
  dot-unit =
      let r = pivot-IsRow xs_bytes col rows pivot ok is in
      dot-scale_first inverse pivot_row.coeffs v k r.width
        (inv-lt (entry rows pivot col) is.nonzero (r.coeff_bytes col)) r.coeff_bytes v_bytes

  unscale : gf256_mul inverse (dot pivot_row.coeffs v) ≡ 0 → dot pivot_row.coeffs v ≡ 0
  unscale h =
      let r = pivot-IsRow xs_bytes col rows pivot ok is in
      let e = entry rows pivot col in
      let d = dot pivot_row.coeffs v in
      let e_byte : e < 256 = r.coeff_bytes col in
      let d_byte : d < 256 = dot-lt pivot_row.coeffs v r.coeff_bytes in
      sym (one-mul d d_byte)
      ∙ ap (λ t. gf256_mul t d) (sym ((mul-inv e is.nonzero e_byte).0))
      ∙ mul_assoc e inverse d e_byte (inv-lt e is.nonzero e_byte) d_byte
      ∙ ap (λ t. gf256_mul e t) h
      ∙ mul-zero e

  dot-source :
      (m : ℕ)
      → m < k
      → m ≢ col
      → dot (unit_row k col rows pivot).coeffs v ≡ 0
      → dot (get_or (reduce k col rows pivot) m blank).coeffs v
        ≡ dot (get_or rows (swap_index col pivot m) blank).coeffs v
  dot-source m p ne z =
      rw
        (
          row_ne xs_bytes col rows pivot ok is m p ne,
          dot-eliminate_row col m (unit_row k col rows pivot)
              (source xs_bytes col rows pivot ok is m) v (unit-IsRow xs_bytes col rows pivot ok is)
              (source-IsRow xs_bytes col rows pivot ok is m p) ne v_bytes,
          z,
          mul-zero (get_or (get_or rows (swap_index col pivot m) blank).coeffs col 0),
        )
        (xor-zero _)

  pub reduce-Kills : Kills k rows v → Kills k (reduce k col rows pivot) v
  reduce-Kills h m p =
      let z : dot (unit_row k col rows pivot).coeffs v ≡ 0 =
        dot-unit ∙ ap (λ t. gf256_mul inverse t) (h pivot is.inside) ∙ mul-zero inverse in
      elim (ℕ_discrete m col) [
        | yes e ↦ rw (e, row_self xs_bytes col rows pivot ok is) z
        | no ne ↦ dot-source m p ne z ∙ h _ (ground (arith, is.below, is.inside))
      ]

  pub Kills-reduce : Kills k (reduce k col rows pivot) v → Kills k rows v
  Kills-reduce h m p = elim (ℕ_discrete m pivot) [
    | yes e ↦ rw e (unscale (sym dot-unit ∙ z))
    | no ne ↦ elim (ℕ_discrete m col) [
      | yes e ↦ back pivot is.inside (ground arith) (ground arith)
      | no nc ↦ back m p nc (ground arith)
    ]
  ]
    where
      z : dot (unit_row k col rows pivot).coeffs v ≡ 0
      z =
          ap (λ (r : Shard). dot r.coeffs v) (sym (row_self xs_bytes col rows pivot ok is))
          ∙ h col (omega (arith, is.below, is.inside))

      back :
          (i : ℕ)
          → i < k
          → i ≢ col
          → swap_index col pivot i ≡ m
          → dot (get_or rows m blank).coeffs v ≡ 0
      back i q ne e =
          ap (λ (t : ℕ). dot (get_or rows t blank).coeffs v) (sym e)
          ∙ sym (dot-source i q ne z)
          ∙ h i q

module _ {k l : ℕ} {xs : List (List ℕ)} (col : ℕ) (rows : List Shard)
    (ok : IsReduced k l xs col rows) (below : col < k)
    (stuck : (m : ℕ) → col ≤ m → m < k → entry rows m col ≡ 0) where
  -- The column, as the combination of those before it.
  column_of : List ℕ
  column_of = map (λ r. get_or r.coeffs col 0) (take col rows)

  length-column_of : length column_of ≡ col
  unfolding column_of
  length-column_of =
      length-map (λ r. get_or r.coeffs col 0) (take col rows)
      ∙ omega (arith, length-take col rows, ok.count)

  get_or-column_of : (m : ℕ) → m < col → get_or column_of m 0 ≡ entry rows m col
  unfolding column_of
  get_or-column_of m p =
      get_or-map (λ r. get_or r.coeffs col 0) (take col rows) m blank 0
        (omega (arith, length-take col rows, ok.count))
      ∙ ap (λ (r : Shard). get_or r.coeffs col 0) (get_or-take col m rows blank p)

  column_of-AreBytes : AreBytes column_of
  column_of-AreBytes i = elim (dec_lt i col) [
    | yes p ↦ rw (get_or-column_of i p) ((ok.are_rows i (omega arith)).coeff_bytes col)
    | no p ↦ rw (get_or_of_ge column_of i 0 (omega (arith, length-column_of))) (omega arith)
  ]

  relation : List ℕ
  relation = column_of ++ (1 ∷ replicate (k - col - 1) 0)

  relation-AreBytes : AreBytes relation
  unfolding relation
  relation-AreBytes i = append_bytes column_of i column_of-AreBytes
    where
      tail_bytes : (j n : ℕ) → get_or (1 ∷ replicate n 0) j 0 < 256
      tail_bytes zero n = omega arith
      tail_bytes (suc j) n = rw (get_or-replicate {A = ℕ} n j 0) (omega arith)

      append_bytes :
          (ys : List ℕ) (j : ℕ)
          → AreBytes ys
          → get_or (ys ++ (1 ∷ replicate (k - col - 1) 0)) j 0 < 256
      append_bytes [] j h = tail_bytes j (k - col - 1)
      append_bytes (y ∷ ys) zero h = h 0
      append_bytes (y ∷ ys) (suc j) h = append_bytes ys j (λ i. h (suc i))

  dot-column_of : (m : ℕ) → m < k → dot (get_or rows m blank).coeffs column_of ≡ entry rows m col
  dot-column_of m p = elim (dec_lt m col) [
    | yes q ↦
        dot_of_unit (get_or rows m blank).coeffs column_of m column_of-AreBytes
          (omega (arith, length-column_of))
          (λ c h. ok.identity m c p (omega (arith, length-column_of)))
        ∙ get_or-column_of m q
    | no q ↦
        dot_of_zeros (get_or rows m blank).coeffs column_of column_of-AreBytes (λ c h.
          ok.identity m c p (omega (arith, length-column_of))
          ∙ delta_ne c m (omega (arith, length-column_of)))
        ∙ sym (stuck m (omega arith) p)
  ]

  relation-Kills : Kills k rows relation
  unfolding relation
  relation-Kills m p =
      dot-append r.coeffs column_of (1 ∷ replicate (k - col - 1) 0)
      ∙ ap₂ (λ s t. s ⊕ t) (dot-column_of m p)
          (dot-one_zeros (drop (length column_of) r.coeffs) (k - col - 1) dropped_bytes
            ∙ dropped 0 col (omega (arith, length-column_of)))
      ∙ xor_self (entry rows m col)
    where
      r : Shard
      r = get_or rows m blank

      dropped :
          (i j : ℕ)
          → j ≡ length column_of + i
          → get_or (drop (length column_of) r.coeffs) i 0 ≡ get_or r.coeffs j 0
      dropped i j e = get_or-drop (length column_of) i j r.coeffs 0 e

      dropped_bytes : AreBytes (drop (length column_of) r.coeffs)
      dropped_bytes i = rw (dropped i (length column_of + i) refl) ((ok.are_rows m p).coeff_bytes _)

  -- A column without a pivot makes the rows dependent.
  pub stuck-IsDependent : IsDependent k rows
  unfolding relation
  stuck-IsDependent = record {
    relation = relation;
    size = omega (
      arith,
      length-append column_of (1 ∷ replicate (k - col - 1) 0),
      length-column_of,
      length-replicate {A = ℕ} (k - col - 1) 0,
    );
    are_bytes = relation-AreBytes;
    kills = relation-Kills;
    place = col;
    nonzero = last column_of col length-column_of;
  }
    where
      last :
          (ys : List ℕ) (j : ℕ)
          → length ys ≡ j
          → get_or (ys ++ (1 ∷ replicate (k - col - 1) 0)) j 0 ≢ 0
      last [] zero e = omega arith
      last [] (suc j) e = absurd (omega arith)
      last (y ∷ ys) zero e = absurd (omega arith)
      last (y ∷ ys) (suc j) e = last ys j (omega arith)
