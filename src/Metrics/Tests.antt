-- ===== src/Metrics/Tests.antt =====
-- Three latencies, of 1, 4 and 600 milliseconds.
use coding_gateway.Base.{ℕ, ◌+◌, ◌/◌, ◌≡◌, refl, arith, List, [], ◌∷◌, leb, length, get_or}
use coding_gateway.Metrics.{
  DoubleOps, zero_metrics, metrics_record_latency, fill_buckets, cumulated,
}
use coding_gateway.Metrics.Histogram.{count_within, record_all, record_all-count_within}

abbrev whole_doubles : DoubleOps ℕ
whole_doubles = record {
  of_u64 = λ n. n;
  plus = λ a b. a + b;
  over = λ a b. a / b;
  is_at_most = λ a b. leb a b;
  nought = 0;
}

abbrev samples : List ℕ
samples = 1000 ∷ 4000 ∷ 600000 ∷ []

record_all-count_within_example :
    (get_or (record_all whole_doubles samples (zero_metrics whole_doubles)).latency_bucket 1 0
      ≡ count_within whole_doubles 5 samples)
    × ((record_all whole_doubles samples (zero_metrics whole_doubles)).latency_count
        ≡ length samples)
record_all-count_within_example =
    record_all-count_within whole_doubles samples 1 (omega arith) (omega arith)

-- The lines of the response sum the buckets once more.
summed_twice :
    cumulated 0 (record_all whole_doubles (1000 ∷ []) (zero_metrics whole_doubles)).latency_bucket
    ≡ 1 ∷ 2 ∷ 3 ∷ 4 ∷ 5 ∷ 6 ∷ 7 ∷ 8 ∷ []
unfolding metrics_record_latency fill_buckets zero_metrics cumulated
summed_twice = refl
