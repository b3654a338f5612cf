-- ===== src/Codec/EncodeShard.antt =====
-- One shard of `encode_block`: the combination of the packets that its coefficients name.
use coding_gateway.Base.{
  ℕ, zero, suc, ◌+◌, ◌≤◌, ◌<◌, ◌≡◌, ◌≢◌, refl, sym, ap, ap₂, ◌∙◌, arith, List, [], ◌∷◌, length,
  get_or, take, set, get_or-map, get_or-take, length-map, length-set, get_or-set_self,
  get_or-set_ne, memset, memcpy, set-AreBytes, get_or-memset, length-memset, memset-AreBytes,
  get_or-memcpy_in, get_or-memcpy_out, length-memcpy, bit_and, ◌⊕◌, ltb, if◌then◌else◌, false,
  lt→ltb, bit_and-255, xor_assoc, zero-xor, xor_comm,
}
use native.Mathlib.Decide.{dec_lt, ℕ_discrete}
use coding_gateway.Gf256.{gf256_mul}
use coding_gateway.Gf256.Field.{zero-mul}
use coding_gateway.Codec.{Shard, gf_vec_axpy, longest, draw, combine, encode_shard}
use coding_gateway.Codec.Dot.{
  AreBytes, dot, delta, delta_self, delta_ne, dot_of_unit, dot_of_zeros, get_or-axpy, length-axpy,
}
use coding_gateway.Codec.Row.{column}
use coding_gateway.Codec.Source.{IsSource, IsShardOf}

longest-ge : (k : ℕ) (lens : List ℕ) (m : ℕ) → m ≤ longest k lens m
unfolding longest
longest-ge zero lens m = omega arith
longest-ge (suc k) [] m = omega arith
longest-ge (suc k) (l ∷ lens) m = ground (arith, longest-ge k lens (if ltb m l then l else m))

pub longest_ge_each :
    (k i : ℕ) (lens : List ℕ) (m : ℕ) → i < k → i < length lens → get_or lens i 0 ≤ longest k lens m
unfolding longest
longest_ge_each zero i lens m p q = absurd (omega arith)
longest_ge_each (suc k) i [] m p q = absurd (omega arith)
longest_ge_each (suc k) zero (l ∷ lens) m p q =
    ground (arith, longest-ge k lens (if ltb m l then l else m))
longest_ge_each (suc k) (suc i) (l ∷ lens) m p q =
    longest_ge_each k i lens _ (omega arith) (omega arith)

-- What follows the length of a packet up to that of the block is zero.
pub record IsPadded (k l : ℕ) (src : List (List ℕ)) (src_len : List ℕ) : Type 0 where
  pub count : k ≤ length src_len
  pub fits : (i : ℕ) → i < k → get_or src_len i 0 ≤ l
  pub zeros : (i p : ℕ) → i < k → get_or src_len i 0 ≤ p → p < l → get_or (get_or src i []) p 0 ≡ 0

-- An output shard before it is written: its arrays are large enough.
pub record IsBuffer (k l : ℕ) (out : Shard) : Type 0 where
  pub width : k ≤ length out.coeffs
  pub room : l ≤ length out.payload
  pub coeff_bytes : AreBytes out.coeffs

dot-set :
    (cs ys : List ℕ) (i c : ℕ)
    → i < length cs
    → i < length ys
    → get_or cs i 0 ≡ 0
    → AreBytes ys
    → dot (set cs i c) ys ≡ dot cs ys ⊕ gf256_mul c (get_or ys i 0)
unfolding dot
dot-set [] ys i c p q z h = absurd (omega arith)
dot-set (x ∷ cs) [] i c p q z h = absurd (omega arith)
dot-set (x ∷ cs) (y ∷ ys) zero c p q z h =
    rw (z, zero-mul y (h 0), zero-xor (dot cs ys)) (xor_comm (gf256_mul c y) (dot cs ys))
dot-set (x ∷ cs) (y ∷ ys) (suc i) c p q z h =
    rw (dot-set cs ys i c (omega arith) (omega arith) z (λ j. h (suc j)))
      (sym (xor_assoc (gf256_mul x y) (dot cs ys) _))

bit_and_byte : (x : ℕ) → bit_and x 255 < 256
bit_and_byte x = omega (arith, bit_and-255 x)

not_ltb : (a b : ℕ) → ¬ (a < b) → ltb a b ≡ false
not_ltb a b h = ground arith

module _ (rand : ℕ → ℕ) {k l : ℕ} {src : List (List ℕ)} {src_len : List ℕ}
    (packets_ok : IsSource k l (take k src)) (padded : IsPadded k l src src_len) where
  draw_lem : (t : ℕ) → (draw rand src src_len k l t < 256) × (draw rand src src_len k l t ≢ 0)
  unfolding draw
  draw_lem t = ground (arith, bit_and_byte (rand t))

  source_row : (i : ℕ) → i < k → get_or (take k src) i [] ≡ get_or src i []
  source_row i p = get_or-take k i src [] p

  source-long : (i : ℕ) → i < k → l ≤ length (get_or src i [])
  source-long i p = rw (← source_row i p) (packets_ok.long i p)

  length-column : (p : ℕ) → length (column p (take k src)) ≡ k
  length-column p = length-map (λ x. get_or x p 0) (take k src) ∙ packets_ok.count

  get_or-column :
      (p i : ℕ) → i < k → get_or (column p (take k src)) i 0 ≡ get_or (get_or src i []) p 0
  get_or-column p i h =
      get_or-map (λ x. get_or x p 0) (take k src) i [] 0 (omega (arith, packets_ok.count))
      ∙ ap (λ (x : List ℕ). get_or x p 0) (source_row i h)

  -- A shard whose coefficients from `i` on are still 0.
  record IsPartial (i : ℕ) (out : Shard) : Type 0 where
    shard : IsShardOf k l (take k src) out
    rest : (c : ℕ) → i ≤ c → c < k → get_or out.coeffs c 0 ≡ 0

  abbrev added : ℕ → ℕ → Shard → Shard
  added i c out = record out {
    coeffs = set out.coeffs i c;
    payload = gf_vec_axpy out.payload c (get_or src i []) l;
  }

  added-IsPartial :
      (i c : ℕ) (out : Shard)
      → i < k
      → c < 256
      → IsPartial i out
      → IsPartial (i + 1) (added i c out)
  added-IsPartial i c out h byte v = record {
    shard = record {
      width = omega (arith, length-set out.coeffs i c, s.width);
      coeff_bytes = set-AreBytes out.coeffs i c byte s.coeff_bytes;
      full = s.full;
      room = omega (arith, length-axpy out.payload c (get_or src i []) l, s.room);
      meets = λ p q.
          get_or-axpy out.payload c (get_or src i []) l p s.room (source-long i h) q
          ∙ ap₂ (λ a b. a ⊕ gf256_mul c b) (s.meets p q) (sym (get_or-column p i h))
          ∙ sym (
              dot-set out.coeffs (column p (take k src)) i c (omega (arith, s.width))
                (omega (arith, length-column p)) (v.rest i (omega arith) h)
                (packets_ok.are_bytes p));
    };
    rest = λ j p q. get_or-set_ne out.coeffs i j c 0 (omega arith) ∙ v.rest j (omega arith) q;
  }
    where
      s : IsShardOf k l (take k src) out
      s = v.shard

  combine-IsShardOf :
      (left i t : ℕ) (out : Shard)
      → left + i ≡ k
      → IsPartial i out
      → IsShardOf k l (take k src) (combine rand src src_len k l left i t out)
  unfolding combine
  combine-IsShardOf zero i t out e v = v.shard
  combine-IsShardOf (suc left) i t out e v =
      combine-IsShardOf left (i + 1) (t + 1) (added i (draw rand src src_len k l t) out)
        (omega arith)
        (added-IsPartial i (draw rand src src_len k l t) out (omega arith) (draw_lem t).0 v)

  abbrev cleared : Shard → Shard
  cleared out = record { coeffs = memset out.coeffs 0 k; payload = memset out.payload 0 l; len = l }

  cleared-IsPartial : (out : Shard) → IsBuffer k l out → IsPartial 0 (cleared out)
  cleared-IsPartial out b = record {
    shard = record {
      width = omega (arith, length-memset out.coeffs k b.width, b.width);
      coeff_bytes = memset-AreBytes out.coeffs k b.coeff_bytes;
      full = refl;
      room = omega (arith, length-memset out.payload l b.room, b.room);
      meets = λ p q.
          get_or-memset out.payload l p q
          ∙ sym (
              dot_of_zeros (memset out.coeffs 0 k) (column p (take k src)) (packets_ok.are_bytes p)
                (λ c h. get_or-memset out.coeffs k c (omega (arith, length-column p))));
    };
    rest = λ c p q. get_or-memset out.coeffs k c q;
  }

  abbrev systematic : ℕ → Shard → Shard
  systematic s out = record (cleared out) {
    coeffs = set (memset out.coeffs 0 k) s 1;
    payload = memcpy (memset out.payload 0 l) (get_or src s []) (get_or src_len s 0);
  }

  systematic_coeffs :
      (s : ℕ) (out : Shard) (c : ℕ)
      → IsBuffer k l out
      → s < k
      → c < k
      → get_or (systematic s out).coeffs c 0 ≡ delta c s
  systematic_coeffs s out c b h p = elim (ℕ_discrete s c) [
    | yes e ↦
        rw
          (
            e,
            get_or-set_self (memset out.coeffs 0 k) c 1 0
                (omega (arith, length-memset out.coeffs k b.width, b.width)),
          )
          (sym (delta_self c))
    | no ne ↦
        get_or-set_ne (memset out.coeffs 0 k) s c 1 0 ne
        ∙ get_or-memset out.coeffs k c p
        ∙ sym (delta_ne c s (λ e. ne (sym e)))
  ]

  systematic_byte :
      (s : ℕ) (out : Shard) (p : ℕ)
      → IsBuffer k l out
      → s < k
      → p < l
      → get_or (systematic s out).payload p 0 ≡ get_or (get_or src s []) p 0
  systematic_byte s out p b h q = elim (dec_lt p n) [
    | yes i ↦ get_or-memcpy_in (memset out.payload 0 l) x n p long i
    | no o ↦
        get_or-memcpy_out (memset out.payload 0 l) x n p long (omega arith)
        ∙ get_or-memset out.payload l p q
        ∙ sym (padded.zeros s p h (omega arith) q)
  ]
    where
      n : ℕ
      n = get_or src_len s 0

      x : List ℕ
      x = get_or src s []

      long : n ≤ length x
      long = omega (arith, padded.fits s h, source-long s h)

  systematic-IsShardOf :
      (s : ℕ) (out : Shard)
      → IsBuffer k l out
      → s < k
      → IsShardOf k l (take k src) (systematic s out)
  systematic-IsShardOf s out b h = record {
    width = omega (
      arith,
      length-set (memset out.coeffs 0 k) s 1,
      length-memset out.coeffs k b.width,
      b.width,
    );
    coeff_bytes =
        set-AreBytes (memset out.coeffs 0 k) s 1 (omega arith)
          (memset-AreBytes out.coeffs k b.coeff_bytes);
    full = refl;
    room = omega (
      arith,
      length-memcpy (memset out.payload 0 l) (get_or src s []) (get_or src_len s 0)
          (omega (arith, padded.fits s h, source-long s h))
          (omega (arith, padded.fits s h, length-memset out.payload l b.room, b.room)),
      length-memset out.payload l b.room,
      b.room,
    );
    meets = λ p q.
        systematic_byte s out p b h q
        ∙ sym (get_or-column p s h)
        ∙ sym (
            dot_of_unit (systematic s out).coeffs (column p (take k src)) s (packets_ok.are_bytes p)
              (omega (arith, length-column p))
              (λ c m. systematic_coeffs s out c b h (omega (arith, length-column p))));
  }

  -- Every round of the loop over the shards makes a combination of the packets.
  pub encode_shard-IsShardOf :
      (s t : ℕ) (out : Shard)
      → IsBuffer k l out
      → IsShardOf k l (take k src) (encode_shard rand src src_len k l s t out)
  unfolding encode_shard
  encode_shard-IsShardOf s t out b = elim (dec_lt s k) [
    | yes p ↦ rw (lt→ltb s k p) (systematic-IsShardOf s out b p)
    | no p ↦
        rw (not_ltb s k p)
          (combine-IsShardOf k 0 t (cleared out) (omega arith) (cleared-IsPartial out b))
  ]

  -- The first `k` shards carry the identity coefficients.
  pub encode_shard-systematic :
      (s t : ℕ) (out : Shard) (c : ℕ)
      → IsBuffer k l out
      → s < k
      → c < k
      → get_or (encode_shard rand src src_len k l s t out).coeffs c 0 ≡ delta c s
  unfolding encode_shard
  encode_shard-systematic s t out c b p q = rw (lt→ltb s k p) (systematic_coeffs s out c b p q)
