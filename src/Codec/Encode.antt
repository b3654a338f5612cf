-- ===== src/Codec/Encode.antt =====
-- `encode_block`: all its shards, and their way back through `decode_block`.
use coding_gateway.Base.{
  ℕ, zero, suc, ◌+◌, ◌≤◌, ◌<◌, ◌≡◌, refl, sym, ap, ◌∙◌, arith, List, [], ◌∷◌, length, get_or, take,
  map, get_or-map, length-map, get_or_of_ge, ltb, if◌then◌else◌,
}
use native.Mathlib.Decide.{dec_lt}
use coding_gateway.Codec.{Shard, longest, encode_shard, encode_shards, encode_block}
use coding_gateway.Codec.Decode.{blank}
use coding_gateway.Codec.Dot.{delta, dot_of_unit}
use coding_gateway.Codec.Source.{IsSource, IsShardOf}
use coding_gateway.Codec.EncodeShard.{
  IsPadded, IsBuffer, encode_shard-IsShardOf, encode_shard-systematic,
}
use coding_gateway.Base.{some}
use coding_gateway.Codec.Decode.{decode_block}
use coding_gateway.Codec.Source.{AreShardsOf, IsStack, packets}
use coding_gateway.Codec.Kernel.{IsDependent}
use coding_gateway.Codec.RoundTrip.{decode_block-recovers}

-- Output arrays for `n` shards.
pub record AreBuffers (n k l : ℕ) (out : List Shard) : Type 0 where
  pub count : n ≤ length out
  pub each : (i : ℕ) → i < n → IsBuffer k l (get_or out i blank)

module _ (rand : ℕ → ℕ) (src : List (List ℕ)) (src_len : List ℕ) (k l : ℕ) where
  pub length-encode_shards :
      (left s t : ℕ) (out : List Shard)
      → length (encode_shards rand src src_len k l left s t out) ≡ length out
  unfolding encode_shards
  length-encode_shards zero s t out = refl
  length-encode_shards (suc left) s t [] = refl
  length-encode_shards (suc left) s t (o ∷ out) =
      ap suc (length-encode_shards left (s + 1) (if ltb s k then t else t + k) out)

  -- Shard `s + i` is written once, after some number of calls of `rand()`.
  get_or-encode_shards :
      (left s t i j : ℕ) (out : List Shard)
      → i < left
      → i < length out
      → j ≡ s + i
      → (u : ℕ) × (get_or (encode_shards rand src src_len k l left s t out) i blank
          ≡ encode_shard rand src src_len k l j u (get_or out i blank))
  unfolding encode_shards
  get_or-encode_shards zero s t i j out p q e = absurd (omega arith)
  get_or-encode_shards (suc left) s t i j [] p q e = absurd (omega arith)
  get_or-encode_shards (suc left) s t zero j (o ∷ out) p q e =
      (t, ap (λ a. encode_shard rand src src_len k l a t o) (omega arith))
  get_or-encode_shards (suc left) s t (suc i) j (o ∷ out) p q e =
      get_or-encode_shards left (s + 1) (if ltb s k then t else t + k) i j out (omega arith)
        (omega arith) (omega arith)

module _ (rand : ℕ → ℕ) {n k : ℕ} {src : List (List ℕ)} {src_len : List ℕ} {out : List Shard}
    (packets_ok : IsSource k (longest k src_len 0) (take k src))
    (padded : IsPadded k (longest k src_len 0) src src_len)
    (buffers : AreBuffers n k (longest k src_len 0) out) where
  encoded :
      (i : ℕ)
      → i < n
      → (u : ℕ) × (get_or (encode_block rand src src_len k n out) i blank
          ≡ encode_shard rand src src_len k (longest k src_len 0) i u (get_or out i blank))
  unfolding encode_block
  encoded i p =
      get_or-encode_shards rand src src_len k (longest k src_len 0) n 0 0 i i out p
        (omega (arith, buffers.count)) (omega arith)

  -- Let the first `k` packets be zero from their length up to the longest one's, and the output
  -- arrays be large enough. Then every shard that `encode_block` writes has the length of the
  -- longest packet, and each of its bytes is the sum, over the packets, of the coefficient times
  -- the packet's byte.
  pub encode_block-IsShardOf :
      (i : ℕ)
      → i < n
      → IsShardOf k
          (longest k src_len 0)
          (take k src)
          (get_or (encode_block rand src src_len k n out) i blank)
  encode_block-IsShardOf i p =
      let (u, e) = encoded i p in
      rw e
        (encode_shard-IsShardOf rand packets_ok padded i u (get_or out i blank) (buffers.each i p))

  pub length-encode_block : length (encode_block rand src src_len k n out) ≡ length out
  unfolding encode_block
  length-encode_block = length-encode_shards rand src src_len k (longest k src_len 0) n 0 0 out

  pub encode_block-systematic :
      (i c : ℕ)
      → i < n
      → i < k
      → c < k
      → get_or (get_or (encode_block rand src src_len k n out) i blank).coeffs c 0 ≡ delta c i
  encode_block-systematic i c p q r =
      let (u, e) = encoded i p in
      rw e (
        encode_shard-systematic rand packets_ok padded i u (get_or out i blank) c (buffers.each i p)
          q r)

  -- The shards that arrive, by their indices, in the order of their arrival.
  abbrev pub arrived : List ℕ → List Shard
  arrived pick = map (λ i. get_or (encode_block rand src src_len k n out) i blank) pick

  module _ {stack : List (List ℕ)} (mem : IsStack k (longest k src_len 0) stack) where
    -- Let the packets be padded with zeros and the arrays be large enough, and let at least `k` of
    -- the `n` shards that `encode_block` makes arrive, in any order. If the coefficients of the
    -- first `k` of them are linearly independent, `decode_block` returns every packet of the block,
    -- padded to the longest one's length.
    pub decode_block-encode_block :
        (pick : List ℕ)
        → k ≤ length pick
        → ((i : ℕ) → i < k → get_or pick i 0 < n)
        → ¬ IsDependent k (arrived pick)
        → decode_block stack (arrived pick) k ≡ some (packets (longest k src_len 0) (take k src))
    decode_block-encode_block pick enough valid free =
        decode_block-recovers packets_ok mem arrived_ok free
      where
        shard_at : ℕ → Shard
        shard_at i = get_or (encode_block rand src src_len k n out) i blank

        arrived_ok : AreShardsOf k (longest k src_len 0) (take k src) (arrived pick)
        arrived_ok = record {
          count = omega (arith, length-map shard_at pick);
          each = λ i p.
              rw (get_or-map shard_at pick i 0 blank (omega arith))
                (encode_block-IsShardOf (get_or pick i 0) (valid i p));
        }

    -- With no loss, the first `k` shards, decoded as they stand, give the packets back whatever
    -- `rand()` returned.
    pub decode_block-first_shards :
        k ≤ n
        → decode_block stack (encode_block rand src src_len k n out) k
          ≡ some (packets (longest k src_len 0) (take k src))
    decode_block-first_shards h = decode_block-recovers packets_ok mem ok free
      where
        shards : List Shard
        shards = encode_block rand src src_len k n out

        ok : AreShardsOf k (longest k src_len 0) (take k src) shards
        ok = record {
          count = omega (arith, length-encode_block, buffers.count);
          each = λ i p. encode_block-IsShardOf i (omega arith);
        }

        free : ¬ IsDependent k shards
        free d = elim (dec_lt d.place k) [
          | yes p ↦ d.nonzero (
              sym (
                dot_of_unit (get_or shards d.place blank).coeffs d.relation d.place d.are_bytes
                  (omega (arith, d.size))
                  (λ c q.
                    encode_block-systematic d.place c (omega arith) p (omega (arith, d.size))))
              ∙ d.kills d.place p)
          | no p ↦ d.nonzero (get_or_of_ge d.relation d.place 0 (omega (arith, d.size)))
        ]
