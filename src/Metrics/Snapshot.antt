-- ===== src/Metrics/Snapshot.antt =====
-- `metrics_snapshot` and `metrics_percentile_ns` of src/metrics.c, over an interface for `double`.
use packet_analyzer.Prelude.{
  ℕ, ◌+◌, ◌-◌, ◌*◌, ◌/◌, ◌^◌, List, [], ◌∷◌, Option, none, some, ltb, leb, ◌==◌, ◌&&◌,
  if◌then◌else◌, u64, sub64,
}
use packet_analyzer.Floating.{Floating}
use packet_analyzer.Metrics.Counters.{Metrics}

-- `metrics_snapshot_t`: the counters and the two times that are copied field by field are `copied`.
pub record Snapshot (Double : Type 0) : Type 0 where
  pub copied : Metrics
  pub open copied use *
  pub snapshot_time_ns : ℕ
  pub elapsed_sec : Double
  pub capture_elapsed_sec : Double

-- What `metrics_percentile_ns` returns for a bucket, in nanoseconds. The shifts are on `uint64_t`.
unfoldable pub bucket_value : ℕ → ℕ
bucket_value i = if i == 0 then 500 else (2 ^ (i - 1) + 2 ^ i) / 2 * 1000

-- The loop over the buckets, with those from `i` on left, and the maximum that it falls back to.
unfoldable pub percentile_loop : List ℕ → ℕ → ℕ → ℕ → ℕ → ℕ
percentile_loop [] i cumulative target max_ns = max_ns
percentile_loop (x ∷ histogram) i cumulative target max_ns =
    let rest = percentile_loop histogram (i + 1) (u64 (cumulative + x)) target max_ns in
    if leb target (u64 (cumulative + x)) then bucket_value i else rest

module _ (F : Floating) where
  open F use {Double, of_u64, to_u64, mul, div}

  -- `(double)ns / 1e9`
  unfoldable pub seconds : ℕ → Double
  seconds ns = div (of_u64 ns) (of_u64 1000000000)

  -- The clock is an argument. The atomic loads are read at once.
  unfoldable pub snapshot : Metrics → ℕ → Snapshot Double
  unfolding seconds
  snapshot m now_ns =
      let started = ltb 0 m.start_time_ns in
      let elapsed = if started then seconds (sub64 now_ns m.start_time_ns) else of_u64 0 in
      record {
        copied = m;
        snapshot_time_ns = now_ns;
        elapsed_sec = elapsed;
        capture_elapsed_sec =
            if started && ltb 0 m.capture_end_time_ns
            then seconds (sub64 m.capture_end_time_ns m.start_time_ns)
            else (if started then elapsed else of_u64 0);
      }

  -- `metrics_percentile_ns`
  unfoldable pub percentile_ns : Option (Snapshot Double) → Double → ℕ
  percentile_ns none percentile = 0
  percentile_ns (some s) percentile =
      if s.latency_count == 0
      then 0
      else percentile_loop s.latency_histogram 0 0
          (to_u64 (mul (of_u64 s.latency_count) percentile)) s.latency_max_ns
