-- ===== src/Codec.antt =====
-- include/codec.h and src/codec.c: `struct shard` and `encode_block`. A C array is a list; what an
-- array holds before it is written is an argument. `rand` gives the value of each call of `rand()`.
pub mod Decode
pub mod Dot
pub mod Row
pub mod Pivot
pub mod Reduced
pub mod Kernel
pub mod Source
pub mod Solve
pub mod RoundTrip
pub mod EncodeShard
pub mod Encode
mod Tests
use coding_gateway.Base.{
  ℕ, zero, suc, ◌+◌, List, [], ◌∷◌, bit_and, ◌⊕◌, ◌==◌, ltb, if◌then◌else◌, get_or, set, memcpy,
  memset,
}
use coding_gateway.Gf256.{gf256_mul}

pub record Shard : Type 0 where
  pub coeffs : List ℕ
  pub payload : List ℕ
  pub len : ℕ

-- `dst[i] ^= a * src[i]` for `i` in `[0, len)`.
unfoldable pub gf_vec_axpy : List ℕ → ℕ → List ℕ → ℕ → List ℕ
unfolding gf256_mul
gf_vec_axpy dst a src zero = dst
gf_vec_axpy [] a src (suc len) = []
gf_vec_axpy (d ∷ dst) a [] (suc len) = d ∷ dst
gf_vec_axpy (d ∷ dst) a (s ∷ src) (suc len) = (d ⊕ gf256_mul a s) ∷ gf_vec_axpy dst a src len

-- The largest of the first `k` lengths.
unfoldable pub longest : ℕ → List ℕ → ℕ → ℕ
longest zero lens max_len = max_len
longest (suc k) [] max_len = max_len
longest (suc k) (l ∷ lens) max_len = longest k lens (if ltb max_len l then l else max_len)

module _ (rand : ℕ → ℕ) (src : List (List ℕ)) (src_len : List ℕ) (k max_len : ℕ) where
  -- The coefficient that the `t`-th call of `rand()` gives.
  unfoldable pub draw : ℕ → ℕ
  draw t = let c = bit_and (rand t) 0xff in if c == 0 then 1 else c

  -- The loop over the source packets of a random shard, with the number of packets left.
  unfoldable pub combine : ℕ → ℕ → ℕ → Shard → Shard
  unfolding draw gf_vec_axpy
  combine zero i t out = out
  combine (suc left) i t out =
      let c = draw t in
      combine left (i + 1) (t + 1) (record out {
        coeffs = set out.coeffs i c;
        payload = gf_vec_axpy out.payload c (get_or src i []) max_len;
      })

  -- The loop body for shard `s`; `t` calls of `rand()` were made before.
  unfoldable pub encode_shard : ℕ → ℕ → Shard → Shard
  unfolding combine
  encode_shard s t out =
      let cleared = record out {
        coeffs = memset out.coeffs 0 k;
        payload = memset out.payload 0 max_len;
        len = max_len;
      } in
      if ltb s k
      then record cleared {
        coeffs = set cleared.coeffs s 1;
        payload = memcpy cleared.payload (get_or src s []) (get_or src_len s 0);
      }
      else combine k 0 t cleared

  -- The loop over the shards, with the number of shards left.
  unfoldable pub encode_shards : ℕ → ℕ → ℕ → List Shard → List Shard
  unfolding encode_shard
  encode_shards zero s t out = out
  encode_shards (suc left) s t [] = []
  encode_shards (suc left) s t (o ∷ out) =
      encode_shard s t o ∷ encode_shards left (s + 1) (if ltb s k then t else t + k) out

unfoldable pub encode_block : (ℕ → ℕ) → List (List ℕ) → List ℕ → ℕ → ℕ → List Shard → List Shard
unfolding longest encode_shards
encode_block rand src src_len k n out =
    encode_shards rand src src_len k (longest k src_len 0) n 0 0 out
