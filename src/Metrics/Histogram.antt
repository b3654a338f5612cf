-- ===== src/Metrics/Histogram.antt =====
-- The latency histogram of src/metrics.c.
use coding_gateway.Base.{
  ℕ, zero, suc, ◌+◌, ◌^◌, ◌≤◌, ◌<◌, ◌≡◌, refl, sym, ap, ◌∙◌, arith, List, [], ◌∷◌, Bool, true,
  false, if◌then◌else◌, Bool-cases, inl, inr, length, get_or, get_or-replicate,
}
use coding_gateway.Metrics.{
  Metrics, DoubleOps, count_up, zero_metrics, metrics_latency_bounds, fill_buckets,
  metrics_record_latency,
}

module _ {D : Type 0} (ops : DoubleOps D) where
  -- The latency in milliseconds.
  abbrev pub in_ms : ℕ → D
  in_ms us = ops.over (ops.of_u64 us) (ops.of_u64 1000)

  -- The number of the samples that do not exceed the bound.
  abbrev pub count_within : ℕ → List ℕ → ℕ
  count_within bound [] = 0
  count_within bound (us ∷ samples) =
      (if ops.is_at_most (in_ms us) (ops.of_u64 bound) then 1 else 0) + count_within bound samples

  abbrev pub record_all : List ℕ → Metrics D → Metrics D
  record_all [] m = m
  record_all (us ∷ samples) m = record_all samples (metrics_record_latency ops us m)

  filled :
      (ms : D) (bounds buckets : List ℕ) (i : ℕ)
      → i < length bounds
      → i < length buckets
      → get_or (fill_buckets ops ms bounds buckets) i 0 ≡ (
          if ops.is_at_most ms (ops.of_u64 (get_or bounds i 0))
          then count_up (get_or buckets i 0)
          else get_or buckets i 0)
  unfolding fill_buckets
  filled ms [] buckets i p q = absurd (omega arith)
  filled ms (b ∷ bounds) [] i p q = absurd (omega arith)
  filled ms (b ∷ bounds) (n ∷ buckets) zero p q = refl
  filled ms (b ∷ bounds) (n ∷ buckets) (suc i) p q =
      filled ms bounds buckets i (omega arith) (omega arith)

  length-fill_buckets :
      (ms : D) (bounds buckets : List ℕ)
      → length bounds ≡ length buckets
      → length (fill_buckets ops ms bounds buckets) ≡ length buckets
  unfolding fill_buckets
  length-fill_buckets ms [] buckets e = refl
  length-fill_buckets ms (b ∷ bounds) [] e = refl
  length-fill_buckets ms (b ∷ bounds) (n ∷ buckets) e =
      omega (arith, length-fill_buckets ms bounds buckets (omega arith))

  step_bucket :
      (t : Bool) (n rest : ℕ)
      → n + ((if t then 1 else 0) + rest) < 2 ^ 64
      → (if t then count_up n else n) + rest ≡ n + ((if t then 1 else 0) + rest)
  step_bucket true n rest h = omega arith
  step_bucket false n rest h = omega arith

  grows : (t : Bool) (n : ℕ) → (if t then count_up n else n) ≤ n + 1
  grows true n = omega arith
  grows false n = omega arith

  count_le : (bound : ℕ) (samples : List ℕ) → count_within bound samples ≤ length samples
  count_le bound [] = omega arith
  count_le bound (us ∷ samples) = elim (Bool-cases (ops.is_at_most (in_ms us) (ops.of_u64 bound))) [
    | inl e ↦ rw e (omega (arith, count_le bound samples))
    | inr e ↦ rw e (omega (arith, count_le bound samples))
  ]

  recorded :
      (samples : List ℕ) (m : Metrics D) (i : ℕ)
      → i < 8
      → length m.latency_bucket ≡ 8
      → get_or m.latency_bucket i 0 + length samples < 2 ^ 64
      → get_or (record_all samples m).latency_bucket i 0
        ≡ get_or m.latency_bucket i 0 + count_within (get_or metrics_latency_bounds i 0) samples
  unfolding metrics_record_latency
  recorded [] m i p room h = omega arith
  recorded (us ∷ samples) m i p room h =
      let bound = get_or metrics_latency_bounds i 0 in
      let t = ops.is_at_most (in_ms us) (ops.of_u64 bound) in
      let n = get_or m.latency_bucket i 0 in
      let stepped = filled (in_ms us) metrics_latency_bounds m.latency_bucket i p (omega arith) in
      let size =
        length-fill_buckets (in_ms us) metrics_latency_bounds m.latency_bucket (sym room) in
      recorded samples (metrics_record_latency ops us m) i p (size ∙ room)
        (omega (arith, stepped, grows t n))
      ∙ ap (λ x. x + count_within bound samples) stepped
      ∙ step_bucket t n (count_within bound samples) (omega (arith, count_le bound (us ∷ samples)))

  counted :
      (samples : List ℕ) (m : Metrics D)
      → m.latency_count + length samples < 2 ^ 64
      → (record_all samples m).latency_count ≡ m.latency_count + length samples
  unfolding metrics_record_latency
  counted [] m h = omega arith
  counted (us ∷ samples) m h =
      counted samples (metrics_record_latency ops us m) (omega arith) ∙ omega arith

  -- When fewer than 2^64 latencies have been recorded, from zero, the bucket of each of the 8 bounds
  -- has the number of latencies that do not exceed the bound, so that the buckets are cumulative,
  -- and `latency_count` is the number of all.
  pub record_all-count_within :
      (samples : List ℕ) (i : ℕ)
      → length samples < 2 ^ 64
      → i < length metrics_latency_bounds
      → (get_or (record_all samples (zero_metrics ops)).latency_bucket i 0
          ≡ count_within (get_or metrics_latency_bounds i 0) samples)
        × ((record_all samples (zero_metrics ops)).latency_count ≡ length samples)
  unfolding zero_metrics
  record_all-count_within samples i h p =
      let empty = get_or-replicate {A = ℕ} 8 i 0 in
      (
        recorded samples (zero_metrics ops) i p refl (omega (arith, empty))
            ∙ ap (λ x. x + count_within (get_or metrics_latency_bounds i 0) samples) empty
            ∙ omega arith,
        counted samples (zero_metrics ops) (omega arith) ∙ omega arith,
      )
