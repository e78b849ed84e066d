-- ===== src/Regression/Compare.antt =====
-- `regression_compare` of src/regression.c, over an interface for `double`.
use packet_analyzer.Prelude.{
  ℕ, ◌+◌, ◌*◌, Bool, false, ◌||◌, Option, none, some, ltb, if◌then◌else◌, u64,
}
use packet_analyzer.Floating.{Floating}
use packet_analyzer.Metrics.Snapshot.{Snapshot, percentile_ns}
use packet_analyzer.Regression.Baseline.{Baseline, Result}

module _ (F : Floating) where
  open F use {Double, of_u64, to_u64, add, sub, mul, div, lt, infinity}

  abbrev pub zero_d : Double
  zero_d = of_u64 0

  abbrev pub one_d : Double
  one_d = of_u64 1

  abbrev pub is_positive : Double → Bool
  is_positive x = lt zero_d x

  -- The four figures of the run.
  unfoldable pub current_pps : Snapshot Double → Double
  current_pps s =
      if is_positive s.capture_elapsed_sec
      then div (of_u64 s.pkts_processed) s.capture_elapsed_sec
      else zero_d

  unfoldable pub current_mbps : Snapshot Double → Double
  current_mbps s =
      if is_positive s.capture_elapsed_sec
      then div (div (of_u64 s.bytes_processed) s.capture_elapsed_sec) (of_u64 (1024 * 1024))
      else zero_d

  unfoldable pub current_p95 : Snapshot Double → ℕ
  current_p95 s = percentile_ns F (some s) (div (of_u64 95) (of_u64 100))

  unfoldable pub current_drop_rate : Snapshot Double → Double
  current_drop_rate s =
      if ltb 0 s.pkts_captured
      then div (of_u64 (u64 (s.queue_drops + s.capture_drops))) (of_u64 s.pkts_captured)
      else zero_d

  -- current < baseline * (1 - threshold), for a positive baseline
  unfoldable pub throughput_regression : Double → Double → Double → Bool
  throughput_regression baseline current threshold =
      if is_positive baseline then lt current (mul baseline (sub one_d threshold)) else false

  unfoldable pub latency_regression : ℕ → ℕ → Double → Bool
  latency_regression baseline current threshold =
      if ltb 0 baseline
      then ltb (to_u64 (mul (of_u64 baseline) (add one_d threshold))) current
      else false

  -- Without drops in the baseline, a drop rate above the threshold itself.
  unfoldable pub drop_regression : Double → Double → Double → Bool
  drop_regression baseline current threshold =
      if is_positive baseline
      then lt (mul baseline (add one_d threshold)) current
      else lt threshold current

  abbrev delta : Double → Double → Double
  delta baseline current =
      if is_positive baseline then div (sub current baseline) baseline else zero_d

  unfoldable pub result_of : Baseline Double → Snapshot Double → Double → Result Double
  result_of b s threshold =
      let pps = current_pps s in
      let mbps = current_mbps s in
      let p95 = current_p95 s in
      let drop = current_drop_rate s in
      let pps_reg = throughput_regression b.pkts_processed_per_sec pps threshold in
      let mbps_reg = throughput_regression b.mbps_processed mbps threshold in
      let latency_reg = latency_regression b.latency_p95_ns p95 threshold in
      let drop_reg = drop_regression b.drop_rate drop threshold in
      record {
        baseline_pps = b.pkts_processed_per_sec;
        current_pps = pps;
        pps_delta_pct = delta b.pkts_processed_per_sec pps;
        pps_regression = pps_reg;
        baseline_mbps = b.mbps_processed;
        current_mbps = mbps;
        mbps_delta_pct = delta b.mbps_processed mbps;
        mbps_regression = mbps_reg;
        baseline_p95_ns = b.latency_p95_ns;
        current_p95_ns = p95;
        latency_delta_pct =
            if ltb 0 b.latency_p95_ns
            then div (sub (of_u64 p95) (of_u64 b.latency_p95_ns)) (of_u64 b.latency_p95_ns)
            else zero_d;
        latency_regression = latency_reg;
        baseline_drop_rate = b.drop_rate;
        current_drop_rate = drop;
        drop_delta_pct =
            if is_positive b.drop_rate
            then div (sub drop b.drop_rate) b.drop_rate
            else (if is_positive drop then infinity else zero_d);
        drop_regression = drop_reg;
        any_regression = pps_reg || mbps_reg || latency_reg || drop_reg;
        threshold = threshold;
      }

  -- `regression_compare`: `none` is -1, with the result structure left as it was.
  unfoldable pub compare :
      Option (Baseline Double) → Option (Snapshot Double) → Double → Option (Result Double)
  unfolding result_of
  compare none current threshold = none
  compare (some b) none threshold = none
  compare (some b) (some s) threshold = if b.valid then some (result_of b s threshold) else none

  -- `regression_detected`
  unfoldable pub detected : Option (Result Double) → Bool
  detected none = false
  detected (some r) = r.any_regression
