-- ===== src/Metrics/Buckets.antt =====
-- Which latencies a bucket of the histogram holds.
use native.Mathlib.Nat.{pow-suc}
use packet_analyzer.Prelude.{
  ℕ, zero, suc, ◌+◌, ◌*◌, ◌/◌, ◌^◌, ◌≤◌, ◌<◌, ◌≡◌, inl, inr, refl, ◌∙◌, arith, ltb, true,
  Bool-cases, dec_lt,
}
use packet_analyzer.Metrics.Latency.{bucket_loop, latency_bucket}

bucket_loop-suc :
    (n val bucket : ℕ)
    → ltb 1 val ≡ true
    → bucket_loop (suc n) val bucket ≡ bucket_loop n (val / 2) (bucket + 1)
unfolding bucket_loop
bucket_loop-suc n val bucket h = rw (h, bucket_loop) refl

-- The loop adds to `bucket` the binary logarithm of `val`, but not more than its rounds.
bucket_loop_lem :
    (n val bucket : ℕ)
    → 0 < val
    → (k : ℕ) × (bucket_loop n val bucket ≡ bucket + k)
      × (k ≤ n)
      × (2 ^ k ≤ val)
      × (k < n → val < 2 ^ suc k)
unfolding bucket_loop
bucket_loop_lem zero val bucket pos = (0, omega arith, omega arith, omega arith, λ h. elim h [ ])
bucket_loop_lem (suc n) val bucket pos = elim (Bool-cases (ltb 1 val)) [
  | inl more ↦
      let (k, e, le, low, high) = bucket_loop_lem n (val / 2) (bucket + 1) (ground arith) in
      (
        suc k,
        bucket_loop-suc n val bucket more ∙ omega (arith, e),
        omega arith,
        omega (arith, pow-suc 2 k),
        λ h. omega (arith, high (omega arith), pow-suc 2 (suc k)),
      )
  | inr done ↦ (0, ground arith, omega arith, omega arith, λ h. ground arith)
]

-- Bucket 0 holds the latencies below 2 microseconds, bucket `i` those from `2^i` up to `2^(i+1)`
-- microseconds, and bucket 31 all from `2^31` microseconds on.
pub record InBucket (latency_ns bucket : ℕ) : Type 0 where
  pub in_range : bucket < 32
  pub from : 0 < bucket → 2 ^ bucket * 1000 ≤ latency_ns
  pub below : bucket < 31 → latency_ns < 2 ^ suc bucket * 1000

-- `latency_bucket` puts every latency below 2 microseconds into bucket 0, one from 2^i up to 2^(i+1)
-- microseconds into bucket i, and all from 2^31 microseconds on into bucket 31.
pub latency_bucket-InBucket : (latency_ns : ℕ) → InBucket latency_ns (latency_bucket latency_ns)
unfolding latency_bucket
latency_bucket-InBucket latency_ns = elim (dec_lt 0 (latency_ns / 1000)) [
  | yes pos ↦
      let (k, e, le, low, high) = bucket_loop_lem 31 (latency_ns / 1000) 0 pos in
      record {
        in_range = ground (arith, e);
        from = λ h. ground (arith, e, low);
        below = λ h. ground (arith, e, high);
      }
  | no small ↦ record {
    in_range = ground arith;
    from = λ h. ground arith;
    below = λ h. ground arith;
  }
]
