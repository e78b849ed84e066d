-- ===== src/Regression/Baseline.antt =====
-- `regression_baseline_t` and `regression_result_t`, over an interface for `double`.
use packet_analyzer.Prelude.{ℕ, Bool}
use packet_analyzer.Metrics.Metadata.{Metadata}

-- `regression_baseline_t`
pub record Baseline (Double : Type 0) : Type 0 where
  pub pkts_processed_per_sec : Double
  pub mbps_processed : Double
  pub latency_p95_ns : ℕ
  pub drop_rate : Double
  pub pkts_processed : ℕ
  pub bytes_processed : ℕ
  pub queue_drops : ℕ
  pub capture_drops : ℕ
  pub elapsed_sec : Double
  pub metadata : Metadata
  pub valid : Bool

-- `regression_result_t`
pub record Result (Double : Type 0) : Type 0 where
  pub baseline_pps : Double
  pub current_pps : Double
  pub pps_delta_pct : Double
  pub pps_regression : Bool
  pub baseline_mbps : Double
  pub current_mbps : Double
  pub mbps_delta_pct : Double
  pub mbps_regression : Bool
  pub baseline_p95_ns : ℕ
  pub current_p95_ns : ℕ
  pub latency_delta_pct : Double
  pub latency_regression : Bool
  pub baseline_drop_rate : Double
  pub current_drop_rate : Double
  pub drop_delta_pct : Double
  pub drop_regression : Bool
  pub any_regression : Bool
  pub threshold : Double
