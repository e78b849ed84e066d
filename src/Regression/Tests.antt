-- ===== src/Regression/Tests.antt =====
-- A baseline, runs against it, and the theorems at these.
use packet_analyzer.Prelude.{◌≡◌, ◌↔◌, refl, true, false, some, [], ◌∷◌, arith, replicate}
use packet_analyzer.Prelude.Int.{ℤ, pos, ◌*ℤ◌, ◌+ℤ◌, ◌-ℤ◌}
use packet_analyzer.Floating.Whole.{whole, whole-Monotone, whole-Scaling}
use packet_analyzer.Metrics.Counters.{init}
use packet_analyzer.Metrics.Metadata.{Metadata, none_text}
use packet_analyzer.Metrics.Snapshot.{Snapshot, percentile_loop, percentile_ns, bucket_value}
use packet_analyzer.Regression.Baseline.{Baseline, Result}
use packet_analyzer.Regression.Compatible.{
  fields_differ, text_mismatch, int_mismatch, same_text, validate_metadata,
}
use packet_analyzer.Regression.MustMatch.{MustMatch, validate_metadata_iff}
use packet_analyzer.Regression.Compare.{
  compare, detected, result_of, current_pps, current_mbps, current_p95, current_drop_rate,
  throughput_regression, latency_regression, drop_regression,
}
use packet_analyzer.Regression.Verdict.{NoWorse, compare-NoWorse}

abbrev configured : Metadata
configured = record {
  interface = b'e' ∷ b'n' ∷ b'0' ∷ [];
  filter = b'i' ∷ b'c' ∷ b'm' ∷ b'p' ∷ [];
  os = [];
  git_sha = [];
  traffic_mode = none_text;
  traffic_target = [];
  threads = pos 4;
  bpf_buffer_size = pos 0;
  duration_sec = pos 10;
  warmup_sec = pos 0;
  traffic_rate = pos 50;
  valid = true;
}

-- Another warmup, which the baseline leaves at 0, and another interface.
abbrev warmed_up : Metadata
warmed_up = record configured { warmup_sec = pos 5; interface = b'l' ∷ b'o' ∷ [] }

unset_is_accepted : (validate_metadata (some configured) (some warmed_up)).compatible ≡ true
unfolding validate_metadata text_mismatch int_mismatch same_text
unset_is_accepted = refl

two_fields_differ :
    (validate_metadata
      (some configured)
      (some (record configured { threads = pos 8; filter = none_text }))).message
    ≡ some (fields_differ 2)
unfolding validate_metadata text_mismatch int_mismatch same_text
two_fields_differ = refl

abbrev recorded : Baseline ℤ
recorded = record {
  pkts_processed_per_sec = pos 50;
  mbps_processed = pos 0;
  latency_p95_ns = 3000;
  drop_rate = pos 0;
  pkts_processed = 500;
  bytes_processed = 50000;
  queue_drops = 0;
  capture_drops = 0;
  elapsed_sec = pos 10;
  metadata = configured;
  valid = true;
}

-- 600 packets in 10 seconds.
abbrev faster : Snapshot ℤ
faster = record {
  copied = record init {
    pkts_captured = 600;
    pkts_processed = 600;
    bytes_processed = 60000;
    latency_count = 2;
    latency_max_ns = 5000;
    latency_histogram = 1 ∷ 0 ∷ 1 ∷ replicate 29 0;
  };
  snapshot_time_ns = 11;
  elapsed_sec = pos 10;
  capture_elapsed_sec = pos 10;
}

abbrev slower : Snapshot ℤ
slower = record faster { copied = record init { pkts_captured = 600; pkts_processed = 300 } }

slower_is_found :
    (r : Result ℤ) × (compare whole (some recorded) (some slower) (pos 0) ≡ some r)
    × (r.pps_regression ≡ true)
    × (detected whole (some r) ≡ true)
unfolding compare detected throughput_regression latency_regression drop_regression current_pps
    current_mbps current_p95 current_drop_rate percentile_ns percentile_loop bucket_value init ◌*ℤ◌
    ◌+ℤ◌ ◌-ℤ◌
slower_is_found = (result_of whole recorded slower (pos 0), refl, refl, refl)

validate_metadata_iff_example :
    ((validate_metadata (some configured) (some warmed_up)).compatible ≡ true)
    ↔ MustMatch configured warmed_up
validate_metadata_iff_example = validate_metadata_iff configured warmed_up refl

faster-NoWorse : NoWorse whole recorded faster
unfolding current_pps current_mbps current_p95 current_drop_rate percentile_ns percentile_loop
    bucket_value init ◌*ℤ◌
faster-NoWorse = record {
  pps = record { finite_left = refl; finite_right = refl; not_above = refl };
  mbps = record { finite_left = refl; finite_right = refl; not_above = refl };
  latency = omega arith;
  drops = record { finite_left = refl; finite_right = refl; not_above = refl };
}

compare-NoWorse_example :
    (r : Result ℤ) × (compare whole (some recorded) (some faster) (pos 0) ≡ some r)
    × (r.pps_regression ≡ false)
    × (r.mbps_regression ≡ false)
    × (r.latency_regression ≡ false)
    × (r.drop_regression ≡ false)
    × (detected whole (some r) ≡ false)
compare-NoWorse_example =
    compare-NoWorse whole whole-Monotone whole-Scaling recorded faster (pos 0) refl faster-NoWorse
      (omega arith) refl refl refl refl
