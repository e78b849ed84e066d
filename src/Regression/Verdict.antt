-- ===== src/Regression/Verdict.antt =====
-- What `regression_compare` finds for runs that are no worse than the baseline.
use packet_analyzer.Prelude.{
  ℕ, ◌≤◌, ◌<◌, ◌^◌, ◌≡◌, inl, inr, refl, arith, true, false, some, Bool-cases,
}
use packet_analyzer.Floating.{Floating, AtMost, Monotone, Scaling}
use packet_analyzer.Metrics.Snapshot.{Snapshot}
use packet_analyzer.Regression.Baseline.{Baseline, Result}
use packet_analyzer.Regression.Compare.{
  zero_d, one_d, is_positive, current_pps, current_mbps, current_p95, current_drop_rate,
  throughput_regression, latency_regression, drop_regression, result_of, compare, detected,
}

module _ (F : Floating) where
  open F use {Double}

  -- A run that is at least as good as the baseline in all four figures.
  pub record NoWorse (b : Baseline Double) (s : Snapshot Double) : Type 0 where
    pub pps : AtMost F b.pkts_processed_per_sec (current_pps F s)
    pub mbps : AtMost F b.mbps_processed (current_mbps F s)
    pub latency : current_p95 F s ≤ b.latency_p95_ns
    pub drops : AtMost F (current_drop_rate F s) b.drop_rate

module _ (F : Floating) (monotone : Monotone F) (scaling : Scaling F) where
  open F use {Double, of_u64, to_u64, add, sub, mul, lt, finite}

  throughput_no_worse :
      (base cur t : Double)
      → AtMost F base cur
      → lt t (zero_d F) ≡ false
      → throughput_regression F base cur t ≡ false
  unfolding throughput_regression
  throughput_no_worse base cur t h nn = ground (
    arith,
    scaling.shrink base t,
    monotone.lt_of_le_of_lt base cur (mul base (sub (one_d F) t)) h,
  )

  pub drop_no_worse :
      (base cur t : Double)
      → AtMost F cur base
      → finite (zero_d F) ≡ true
      → lt t (zero_d F) ≡ false
      → drop_regression F base cur t ≡ false
  unfolding drop_regression
  drop_no_worse base cur t h zero_finite nn = elim (Bool-cases (is_positive F base)) [
    | inl drops ↦
        ground (
          arith,
          scaling.grow base t,
          monotone.lt_of_lt_of_le (mul base (add (one_d F) t)) cur base,
        )
    | inr none_dropped ↦
        let base_zero : AtMost F base (zero_d F) = record {
          finite_left = h.finite_right;
          finite_right = zero_finite;
          not_above = none_dropped;
        } in
        ground (
          arith,
          monotone.lt_of_lt_of_le t cur base,
          monotone.lt_of_lt_of_le t base (zero_d F),
          base_zero,
        )
  ]

  pub latency_no_worse :
      (base cur : ℕ) (t : Double)
      → cur ≤ base
      → base < 2 ^ 53
      → finite t ≡ true
      → lt t (zero_d F) ≡ false
      → lt (one_d F) t ≡ false
      → latency_regression F base cur t ≡ false
  unfolding latency_regression
  latency_no_worse base cur t h small fin nn top =
      ground (arith, scaling.grow_integer base t small fin nn top)

  -- A run that is no worse than a valid baseline in all four figures shows no regression, at any finite
  -- threshold from 0 to 1: the comparison succeeds, and neither a single flag nor the overall one is
  -- set. The baseline's latency is below 2^53, and doubles are compared and scaled as IEEE 754 says.
  pub compare-NoWorse :
      (b : Baseline Double) (s : Snapshot Double) (t : Double)
      → b.valid ≡ true
      → NoWorse F b s
      → b.latency_p95_ns < 2 ^ 53
      → finite (zero_d F) ≡ true
      → finite t ≡ true
      → lt t (zero_d F) ≡ false
      → lt (one_d F) t ≡ false
      → (r : Result Double) × (compare F (some b) (some s) t ≡ some r)
        × (r.pps_regression ≡ false)
        × (r.mbps_regression ≡ false)
        × (r.latency_regression ≡ false)
        × (r.drop_regression ≡ false)
        × (detected F (some r) ≡ false)
  unfolding compare detected
  compare-NoWorse b s t v w small zf tf nn top =
      let pps = throughput_no_worse b.pkts_processed_per_sec (current_pps F s) t w.pps nn in
      let mbps = throughput_no_worse b.mbps_processed (current_mbps F s) t w.mbps nn in
      let latency =
        latency_no_worse b.latency_p95_ns (current_p95 F s) t w.latency small tf nn top in
      let drops = drop_no_worse b.drop_rate (current_drop_rate F s) t w.drops zf nn in
      (
        result_of F b s t,
        ground arith,
        pps,
        mbps,
        latency,
        drops,
        rw (pps, mbps, latency, drops) refl,
      )
