-- ===== src/Codec/Row.antt =====
-- A row of `decode_block` that is the combination of the source packets which its coefficients
-- name, byte by byte, and the row operations that keep it so.
use coding_gateway.Base.{
  ℕ, ◌≤◌, ◌<◌, ◌≡◌, sym, ap, ap₂, ◌∙◌, arith, List, length, get_or, get_or_of_ge, map, ◌⊕◌, ◌==◌,
  ◌||◌, ltb, if◌then◌else◌, inl, inr, Bool-cases, xor-lt,
}
use coding_gateway.Gf256.{gf256_mul}
use coding_gateway.Gf256.Linear.{mul-lt}
use coding_gateway.Codec.{Shard, gf_vec_axpy}
use coding_gateway.Codec.Decode.{scale_first, scale_row, eliminate_row}
use coding_gateway.Codec.Dot.{
  AreBytes, dot, get_or-scale_first, length-scale_first, get_or-axpy, length-axpy, dot-scale_first,
  dot-axpy,
}
use native.Mathlib.Decide.{dec_lt}

-- Byte `p` of each packet.
abbrev pub column : ℕ → List (List ℕ) → List ℕ
column p xs = map (λ x. get_or x p 0) xs

pub record IsRow (k l : ℕ) (xs : List (List ℕ)) (r : Shard) : Type 0 where
  pub width : length r.coeffs ≡ k
  pub coeff_bytes : AreBytes r.coeffs
  pub full : r.len ≡ l
  pub room : l ≤ length r.payload
  pub meets : (p : ℕ) → p < l → get_or r.payload p 0 ≡ dot r.coeffs (column p xs)

abbrev pub AreBytePackets : List (List ℕ) → Type 0
AreBytePackets xs = (p : ℕ) → AreBytes (column p xs)

scale_first-AreBytes :
    (a : ℕ) (v : List ℕ) (n : ℕ) → length v ≡ n → a < 256 → AreBytes (scale_first a v n)
scale_first-AreBytes a v n e h i = elim (dec_lt i n) [
  | yes p ↦ rw (get_or-scale_first a v n i (omega arith) p) (mul-lt a _ h)
  | no p ↦
      rw (get_or_of_ge (scale_first a v n) i 0 (omega (arith, length-scale_first a v n)))
        (omega arith)
]

axpy-AreBytes :
    (dst : List ℕ) (a : ℕ) (src : List ℕ) (n : ℕ)
    → length dst ≡ n
    → length src ≡ n
    → a < 256
    → AreBytes dst
    → AreBytes (gf_vec_axpy dst a src n)
axpy-AreBytes dst a src n e f h bytes i = elim (dec_lt i n) [
  | yes p ↦
      rw (get_or-axpy dst a src n i (omega arith) (omega arith) p)
        (xor-lt 8 _ _ (bytes i) (mul-lt a _ h))
  | no p ↦
      rw (get_or_of_ge (gf_vec_axpy dst a src n) i 0 (omega (arith, length-axpy dst a src n)))
        (omega arith)
]

abbrev added : ℕ → ℕ → Shard → ℕ → Shard → Shard
added k l pivot factor r = record r {
  coeffs = gf_vec_axpy r.coeffs factor pivot.coeffs k;
  payload = gf_vec_axpy r.payload factor pivot.payload l;
}

module _ {k l : ℕ} {xs : List (List ℕ)} (xs_bytes : AreBytePackets xs) where
  pub scale_row-IsRow :
      (a : ℕ) (r : Shard) → a < 256 → IsRow k l xs r → IsRow k l xs (scale_row k a r)
  unfolding scale_row
  scale_row-IsRow a r h v = record {
    width = length-scale_first a r.coeffs k ∙ v.width;
    coeff_bytes = scale_first-AreBytes a r.coeffs k v.width h;
    full = v.full;
    room = omega (arith, v.room, length-scale_first a r.payload r.len);
    meets = λ p q.
        get_or-scale_first a r.payload r.len p (omega (arith, v.room, v.full))
          (omega (arith, v.full))
        ∙ ap (λ t. gf256_mul a t) (v.meets p q)
        ∙ sym (dot-scale_first a r.coeffs (column p xs) k v.width h v.coeff_bytes (xs_bytes p));
  }

  added-IsRow :
      (pivot : Shard) (factor : ℕ) (r : Shard)
      → factor < 256
      → IsRow k l xs pivot
      → IsRow k l xs r
      → IsRow k l xs (added k l pivot factor r)
  added-IsRow pivot factor r h u v = record {
    width = length-axpy r.coeffs factor pivot.coeffs k ∙ v.width;
    coeff_bytes = axpy-AreBytes r.coeffs factor pivot.coeffs k v.width u.width h v.coeff_bytes;
    full = v.full;
    room = omega (arith, v.room, length-axpy r.payload factor pivot.payload l);
    meets = λ p q.
        get_or-axpy r.payload factor pivot.payload l p v.room u.room q
        ∙ ap₂ (λ s t. s ⊕ gf256_mul factor t) (v.meets p q) (u.meets p q)
        ∙ sym (
            dot-axpy r.coeffs factor pivot.coeffs (column p xs) k v.width u.width h v.coeff_bytes
              u.coeff_bytes (xs_bytes p));
  }

  pub eliminate_row-IsRow :
      (col row : ℕ) (pivot r : Shard)
      → IsRow k l xs pivot
      → IsRow k l xs r
      → IsRow k l xs (eliminate_row k col pivot row r)
  unfolding eliminate_row
  eliminate_row-IsRow col row pivot r u v =
      elim (Bool-cases ((row == col) || (get_or r.coeffs col 0 == 0))) [
        | inl e ↦ rw e v
        | inr e ↦
            rw (e, same_len) (added-IsRow pivot (get_or r.coeffs col 0) r (v.coeff_bytes col) u v)
      ]
    where
      same_len : (if ltb pivot.len r.len then r.len else pivot.len) ≡ l
      same_len = ground (arith, u.full, v.full)
