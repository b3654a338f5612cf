-- ===== src/Metrics.antt =====
-- src/metrics.c and include/metrics.h: the counters, the latency histogram, and the sums in the
-- bucket lines of the response. The type `double` and its operations are a parameter.
pub mod Histogram
mod Tests
use coding_gateway.Base.{
  ℕ, ◌+◌, ◌%◌, ◌^◌, List, [], ◌∷◌, Bool, if◌then◌else◌, get_or, set, replicate,
}
use coding_gateway.Limits.{max_paths}

abbrev pub metrics_latency_buckets : ℕ
metrics_latency_buckets = 8

pub record Metrics (D : Type 0) : Type 0 where
  pub shards_sent : List ℕ
  pub shards_received : List ℕ
  pub decode_success : ℕ
  pub decode_failure : ℕ
  pub blocks_encoded : ℕ
  pub latency_bucket : List ℕ
  pub latency_count : ℕ
  pub latency_sum_ms : D

-- What the code uses of `double`.
pub record DoubleOps (D : Type 0) : Type 0 where
  pub of_u64 : ℕ → D
  pub plus : D → D → D
  pub over : D → D → D
  pub is_at_most : D → D → Bool
  pub nought : D

abbrev pub metrics_latency_bounds : List ℕ
metrics_latency_bounds = 1 ∷ 5 ∷ 10 ∷ 25 ∷ 50 ∷ 100 ∷ 250 ∷ 500 ∷ []

-- A 64-bit counter, one up.
abbrev pub count_up : ℕ → ℕ
count_up n = (n + 1) % 2 ^ 64

abbrev pub bump : List ℕ → ℕ → List ℕ
bump counters i = set counters i (count_up (get_or counters i 0))

module _ {D : Type 0} (ops : DoubleOps D) where
  -- What `memset` with 0 makes of it.
  unfoldable pub zero_metrics : Metrics D
  zero_metrics = record {
    shards_sent = replicate max_paths 0;
    shards_received = replicate max_paths 0;
    decode_success = 0;
    decode_failure = 0;
    blocks_encoded = 0;
    latency_bucket = replicate metrics_latency_buckets 0;
    latency_count = 0;
    latency_sum_ms = ops.nought;
  }

  -- The loop over the bounds and the buckets.
  unfoldable pub fill_buckets : D → List ℕ → List ℕ → List ℕ
  fill_buckets ms [] buckets = buckets
  fill_buckets ms (b ∷ bounds) [] = []
  fill_buckets ms (b ∷ bounds) (n ∷ buckets) =
      (if ops.is_at_most ms (ops.of_u64 b) then count_up n else n) ∷ fill_buckets ms bounds buckets

  unfoldable pub metrics_record_latency : ℕ → Metrics D → Metrics D
  unfolding fill_buckets
  metrics_record_latency latency_us m =
      let ms = ops.over (ops.of_u64 latency_us) (ops.of_u64 1000) in
      record m {
        latency_bucket = fill_buckets ms metrics_latency_bounds m.latency_bucket;
        latency_count = count_up m.latency_count;
        latency_sum_ms = ops.plus m.latency_sum_ms ms;
      }

-- The values of the bucket lines, with the sum so far: `cum += latency_bucket[i]`.
unfoldable pub cumulated : ℕ → List ℕ → List ℕ
cumulated cum [] = []
cumulated cum (n ∷ buckets) = let cum' = (cum + n) % 2 ^ 64 in cum' ∷ cumulated cum' buckets
