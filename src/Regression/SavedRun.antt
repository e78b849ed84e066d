-- ===== src/Regression/SavedRun.antt =====
-- A run that src/metrics.c has saved as a baseline and src/regression.c compares with the same run.
use packet_analyzer.Prelude.{ℕ, ◌<◌, ◌^◌, ◌≡◌, ◌∙◌, inr, ap, refl, arith, true, false, ◌||◌, some}
use packet_analyzer.Floating.{Floating, AtMost, Monotone, Scaling}
use packet_analyzer.Metrics.Counters.{Metrics}
use packet_analyzer.Metrics.Metadata.{Text, Metadata}
use packet_analyzer.Metrics.Snapshot.{snapshot, Snapshot}
use packet_analyzer.Metrics.Json.{snapshot_json}
use packet_analyzer.Regression.Baseline.{Baseline, Result}
use packet_analyzer.Regression.Compatible.{validate_metadata}
use packet_analyzer.Regression.MustMatch.{MustMatch, validate_metadata_iff}
use packet_analyzer.Regression.Compare.{
  zero_d, one_d, current_p95, current_drop_rate, result_of, compare, detected,
}
use packet_analyzer.Regression.Load.{load_baseline}
use packet_analyzer.Regression.RoundTrip.{Writable}
use packet_analyzer.Regression.Reload.{Finite, load_baseline-snapshot_json}
use packet_analyzer.Regression.Verdict.{drop_no_worse, latency_no_worse}

MustMatch-itself : (m : Metadata) → MustMatch m m
MustMatch-itself m = record {
  filter = inr refl;
  threads = inr refl;
  warmup_sec = inr refl;
  duration_sec = inr refl;
  traffic_mode = inr refl;
  traffic_target = inr refl;
  traffic_rate = inr refl;
}

own_metadata :
    (b m : Metadata)
    → b ≡ m
    → m.valid ≡ true
    → (validate_metadata (some b) (some m)).compatible ≡ true
own_metadata b m e v =
    ap (λ x. (validate_metadata (some x) (some m)).compatible) e
    ∙ (validate_metadata_iff m m v).1 (MustMatch-itself m)

module _ (F : Floating) (monotone : Monotone F) (scaling : Scaling F)
    (format : ℕ → F.Double → Text) where
  open F use {Double, of_u64, div, lt, finite}

  AtMost-itself : (x : Double) → finite x ≡ true → AtMost F x x
  AtMost-itself x f = record {
    finite_left = f;
    finite_right = f;
    not_above = ground (arith, monotone.lt_asym x x);
  }

  -- Fields that the comparison sets for a run against the baseline that was made of it.
  abbrev pub Unchanged : Result Double → Type 0
  Unchanged r =
      (r.baseline_p95_ns ≡ r.current_p95_ns)
      × (r.baseline_drop_rate ≡ r.current_drop_rate)
      × (r.latency_regression ≡ false)
      × (r.drop_regression ≡ false)
      × (detected F (some r) ≡ (r.pps_regression || r.mbps_regression))

  unchanged :
      (b : Baseline Double) (s : Snapshot Double) (t : Double)
      → b.latency_p95_ns ≡ current_p95 F s
      → b.drop_rate ≡ current_drop_rate F s
      → current_p95 F s < 2 ^ 53
      → finite (current_drop_rate F s) ≡ true
      → finite (zero_d F) ≡ true
      → finite t ≡ true
      → lt t (zero_d F) ≡ false
      → lt (one_d F) t ≡ false
      → Unchanged (result_of F b s t)
  unfolding result_of detected
  unchanged b s t latency drops small fd zf tf nn top =
      let l =
        latency_no_worse F monotone scaling b.latency_p95_ns (current_p95 F s) t
          (omega (arith, latency)) (omega (arith, latency, small)) tf nn top in
      let d =
        drop_no_worse F monotone scaling b.drop_rate (current_drop_rate F s) t
          (rw drops (AtMost-itself (current_drop_rate F s) fd)) zf nn in
      (latency, drops, l, d, ground (arith, l, d))

  -- A run that `metrics_snapshot_json` has saved passes as its own baseline in all that the file keeps
  -- exactly: the file is loaded, the comparison succeeds, the metadata are accepted, baseline and run
  -- have the same 95th percentile and drop rate, neither of these is a regression, and so one can only
  -- be reported for the throughput, which the file keeps rounded. The conditions on the file are those
  -- for loading it; the percentile is below 2^53, drop rate and threshold are finite, the threshold is
  -- from 0 to 1, and doubles are compared and scaled as IEEE 754 says.
  pub compare-snapshot_json :
      (strtod : Text → Double) (c : Metrics) (now_ns : ℕ) (half ninety_nine t : Double)
      (m : Metadata)
      → let s = snapshot F c now_ns in
        Finite F format s
        → Writable m
        → 0 < c.pkts_processed
        → c.pkts_processed < 2 ^ 64
        → c.pkts_captured < 2 ^ 64
        → c.bytes_processed < 2 ^ 64
        → c.queue_drops < 2 ^ 64
        → c.capture_drops < 2 ^ 64
        → current_p95 F s < 2 ^ 53
        → finite (current_drop_rate F s) ≡ true
        → finite (zero_d F) ≡ true
        → finite t ≡ true
        → lt t (zero_d F) ≡ false
        → lt (one_d F) t ≡ false
        → (b : Baseline Double) × (r : Result Double) × (load_baseline F strtod (
              snapshot_json F format true true c now_ns half
                (div (of_u64 95) (of_u64 100))
                ninety_nine
                m)
            ≡ some b)
          × (compare F (some b) (some s) t ≡ some r)
          × ((validate_metadata (some b.metadata) (some m)).compatible ≡ true)
          × Unchanged r
  unfolding compare current_p95 current_drop_rate
  compare-snapshot_json strtod c now_ns half ninety_nine t m f w positive processed captured bytes
        queue capture p95 fd zf tf nn top =
      let s = snapshot F c now_ns in
      let (b, loaded, same) =
        load_baseline-snapshot_json F format strtod c now_ns half (div (of_u64 95) (of_u64 100))
          ninety_nine m f w positive processed captured bytes queue capture (omega (arith, p95)) in
      (
        b,
        result_of F b s t,
        loaded,
        rw same.7 refl,
        own_metadata b.metadata m same.6 w.valid,
        unchanged b s t same.2 same.5 p95 fd zf tf nn top,
      )
