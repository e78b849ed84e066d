-- ===== src/Metrics/Tests.antt =====
-- Runs of the metrics, and their theorems at concrete inputs.
use packet_analyzer.Prelude.{
  ℕ, ◌*◌, ◌≤◌, ◌≡◌, refl, true, false, List, [], ◌∷◌, some, arith, replicate,
}
use packet_analyzer.Prelude.Int.{ℤ, pos, ◌*ℤ◌}
use packet_analyzer.Floating.Whole.{whole, whole-MulExact}
use packet_analyzer.Metrics.Counters.{Metrics, init}
use packet_analyzer.Metrics.Latency.{Attempt, latency_bucket, exchange_loop}
use packet_analyzer.Metrics.Buckets.{InBucket, latency_bucket-InBucket}
use packet_analyzer.Metrics.Watermark.{peak, exchange_loop-peak}
use packet_analyzer.Metrics.History.{
  Call, captured, protocol, latency, queue_depth, run, Tallies, run-Tallies,
}
use packet_analyzer.Metrics.Maxima.{largest, reported_latencies, reported_depths, run_maxima}
use packet_analyzer.Metrics.Snapshot.{
  Snapshot, bucket_value, percentile_loop, percentile_ns, snapshot,
}
use packet_analyzer.Metrics.Percentile.{
  Reaches, IsWhole, percentile_ns-Reaches, percentile_of_ninety_five, bucket_value-below,
}

-- 5 microseconds lie in bucket 2.
bucket_of_five : latency_bucket 5000 ≡ 2
unfolding latency_bucket
bucket_of_five = refl

-- Another thread raises the watermark to 9 before the first attempt.
abbrev disturbed : List Attempt
disturbed = record { seen = 9; spurious = false } ∷ record { seen = 0; spurious = true } ∷ []

lost_race : exchange_loop 7 disturbed 3 3 ≡ 9
unfolding exchange_loop
lost_race = refl

won_race : exchange_loop 12 disturbed 3 3 ≡ 12
unfolding exchange_loop
won_race = refl

abbrev calls : List Call
calls =
    latency [] 700
    ∷ protocol 6
    ∷ latency disturbed 5000
    ∷ queue_depth disturbed 4
    ∷ captured 60
    ∷ []

abbrev observed : Metrics
observed = record init {
  latency_count = 3;
  latency_sum_ns = 15700;
  latency_max_ns = 9000;
  latency_histogram = 1 ∷ 0 ∷ 1 ∷ 1 ∷ replicate 28 0;
  start_time_ns = 5;
}

abbrev snap : Snapshot ℤ
snap = snapshot whole observed 2000000005

-- The median of 700, 5000 and 9000 nanoseconds is reported as that of bucket 2.
median_of_three : percentile_loop (1 ∷ 0 ∷ 1 ∷ 1 ∷ replicate 28 0) 0 0 2 9000 ≡ 3000
unfolding percentile_loop bucket_value
median_of_three = refl

latency_bucket-InBucket_example : InBucket 5000 (latency_bucket 5000)
latency_bucket-InBucket_example = latency_bucket-InBucket 5000

exchange_loop-peak_example : exchange_loop 7 disturbed 3 3 ≡ peak 7 disturbed 3
exchange_loop-peak_example = exchange_loop-peak 7 disturbed 3 3 (omega arith)

run-Tallies_example : Tallies calls (run calls)
run-Tallies_example = run-Tallies calls (omega arith)

run_maxima_example :
    ((run calls).latency_max_ns ≡ largest (reported_latencies calls))
    × ((run calls).queue_depth_max ≡ largest (reported_depths calls))
run_maxima_example = run_maxima calls

snap-IsWhole : IsWhole whole snap
unfolding snapshot init
snap-IsWhole = record { buckets = omega arith; counted = refl; few = omega arith }

percentile_ns-Reaches_example :
    (k : ℕ) × Reaches (1 ∷ 0 ∷ 1 ∷ 1 ∷ replicate 28 0) 0 3 k
    × (percentile_ns whole (some snap) (pos 1) ≡ bucket_value k)
unfolding snapshot init ◌*ℤ◌
percentile_ns-Reaches_example =
    percentile_ns-Reaches whole snap (pos 1) snap-IsWhole (omega arith) (omega arith)

percentile_of_ninety_five_example : percentile_ns whole (some snap) (pos 95) ≡ 9000
unfolding snapshot init
percentile_of_ninety_five_example =
    percentile_of_ninety_five whole snap whole-MulExact snap-IsWhole (omega arith) (omega arith)

bucket_value-below_example : bucket_value (latency_bucket 5000) * 4 ≤ 15000
unfolding latency_bucket
bucket_value-below_example = bucket_value-below 5000 (omega arith)
