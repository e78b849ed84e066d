-- ===== src/Metrics/Percentile.antt =====
-- Which value `metrics_percentile_ns` picks, and how it lies to the latencies that were observed.
use native.Mathlib.Nat.{pow-suc}
use packet_analyzer.Prelude.{
  ℕ, zero, suc, ◌+◌, ◌*◌, ◌^◌, ◌≤◌, ◌<◌, ◌≡◌, refl, arith, List, [], ◌∷◌, some, length, take, leb,
  false, Bool-cases, inl, inr,
}
use packet_analyzer.Floating.{Floating, MulExact}
use packet_analyzer.Metrics.Latency.{latency_bucket}
use packet_analyzer.Metrics.Buckets.{InBucket, latency_bucket-InBucket}
use packet_analyzer.Metrics.History.{total}
use packet_analyzer.Metrics.Snapshot.{Snapshot, bucket_value, percentile_loop, percentile_ns}

-- The first bucket at which the cumulative count reaches the target.
pub record Reaches (histogram : List ℕ) (cumulative target k : ℕ) : Type 0 where
  pub inside : k < length histogram
  pub reached : target ≤ cumulative + total (take (suc k) histogram)
  pub not_before : 0 < k → cumulative + total (take k histogram) < target

percentile_loop-Reaches :
    (histogram : List ℕ) (i cumulative target max_ns : ℕ)
    → cumulative + total histogram < 2 ^ 64
    → 0 < length histogram
    → target ≤ cumulative + total histogram
    → (k : ℕ) × Reaches histogram cumulative target k
      × (percentile_loop histogram i cumulative target max_ns ≡ bucket_value (i + k))
unfolding percentile_loop
percentile_loop-Reaches [] i c t m few h e = absurd (omega arith)
percentile_loop-Reaches (x ∷ []) i c t m few h e = (
  0,
  record { inside = omega arith; reached = omega arith; not_before = λ p. elim p [ ] },
  ground arith,
)
percentile_loop-Reaches (x ∷ y ∷ histogram) i c t m few h e = elim (Bool-cases (leb t (c + x))) [
  | inl stop ↦ (
    0,
    record { inside = omega arith; reached = ground arith; not_before = λ p. elim p [ ] },
    ground arith,
  )
  | inr go ↦
      let (k, r, ran) =
        percentile_loop-Reaches (y ∷ histogram) (i + 1) (c + x) t m (omega arith) (omega arith)
          (omega arith) in
      (
        suc k,
        record {
          inside = omega (arith, r.inside);
          reached = omega (arith, r.reached);
          not_before = λ p. first k r go;
        },
        ground (arith, ran),
      )
]
  where
    first :
        (k : ℕ)
        → Reaches (y ∷ histogram) (c + x) t k
        → leb t (c + x) ≡ false
        → c + total (take (suc k) (x ∷ y ∷ histogram)) < t
    first zero r go = ground arith
    first (suc k) r go = omega (arith, r.not_before (omega arith))

percentile_loop_above :
    (histogram : List ℕ) (i cumulative target max_ns : ℕ)
    → cumulative + total histogram < 2 ^ 64
    → cumulative + total histogram < target
    → percentile_loop histogram i cumulative target max_ns ≡ max_ns
unfolding percentile_loop
percentile_loop_above [] i c t m few h = refl
percentile_loop_above (x ∷ histogram) i c t m few h =
    ground (arith, percentile_loop_above histogram (i + 1) (c + x) t m (omega arith) (omega arith))

module _ (F : Floating) where
  open F use {Double, of_u64, to_u64, mul}

  -- A snapshot of a histogram that holds each observation once.
  pub record IsWhole (s : Snapshot Double) : Type 0 where
    pub buckets : 0 < length s.latency_histogram
    pub counted : total s.latency_histogram ≡ s.latency_count
    pub few : s.latency_count < 2 ^ 64

  -- For a target count of at most all observations the percentile is the value of the first bucket at
  -- which the cumulative count reaches the target.
  pub percentile_ns-Reaches :
      (s : Snapshot Double) (percentile : Double)
      → IsWhole s
      → 0 < s.latency_count
      → to_u64 (mul (of_u64 s.latency_count) percentile) ≤ s.latency_count
      → (k : ℕ) × Reaches s.latency_histogram 0 (to_u64 (mul (of_u64 s.latency_count) percentile)) k
        × (percentile_ns F (some s) percentile ≡ bucket_value k)
  unfolding percentile_ns
  percentile_ns-Reaches s percentile w pos h =
      let (k, r, ran) =
        percentile_loop-Reaches s.latency_histogram 0 0
          (to_u64 (mul (of_u64 s.latency_count) percentile)) s.latency_max_ns
          (omega (arith, w.counted, w.few)) w.buckets (omega (arith, w.counted)) in
      (k, r, ground (arith, ran))

  -- The call that main makes for each run passes 95.0 where a fraction is meant: it returns the
  -- largest latency, whatever the histogram holds. The counts are below 2^46, so that the product is
  -- exact.
  pub percentile_of_ninety_five :
      (s : Snapshot Double)
      → MulExact F
      → IsWhole s
      → 0 < s.latency_count
      → s.latency_count < 2 ^ 46
      → percentile_ns F (some s) (of_u64 95) ≡ s.latency_max_ns
  unfolding percentile_ns
  percentile_of_ninety_five s exact w pos small =
      let target = exact s.latency_count 95 (omega arith) in
      let above =
        percentile_loop_above s.latency_histogram 0 0 (s.latency_count * 95) s.latency_max_ns
          (omega (arith, w.counted, w.few)) (omega (arith, w.counted)) in
      ground (arith, target, above)

bucket_value-suc : (k : ℕ) → bucket_value (suc k) * 2 ≤ 3 * (2 ^ k * 1000)
unfolding bucket_value
bucket_value-suc k = ground (arith, pow-suc 2 k)

-- The value for a bucket lies below all that the bucket holds: for every latency that is not in
-- bucket 0, the value for its bucket is at most three quarters of the latency.
pub bucket_value-below :
    (latency_ns : ℕ)
    → 0 < latency_bucket latency_ns
    → bucket_value (latency_bucket latency_ns) * 4 ≤ 3 * latency_ns
bucket_value-below latency_ns pos =
    below (latency_bucket latency_ns) (latency_bucket-InBucket latency_ns) pos
  where
    below : (i : ℕ) → InBucket latency_ns i → 0 < i → bucket_value i * 4 ≤ 3 * latency_ns
    below zero b p = elim p [ ]
    below (suc k) b p = omega (arith, bucket_value-suc k, pow-suc 2 k, b.from p)
