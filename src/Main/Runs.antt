-- ===== src/Main/Runs.antt =====
-- The storage of the measurement runs in src/main.c. `none` is an access through the null pointer or
-- outside of the array.
use packet_analyzer.Prelude.{
  ℕ, ◌+◌, Bool, false, Option, none, some, List, [], ◌∷◌, ◌>>=◌, ltb, if◌then◌else◌, get_elem?,
  store, replicate,
}
use packet_analyzer.Floating.{Floating}
use packet_analyzer.Metrics.Snapshot.{Snapshot, percentile_ns}

-- `run_metrics_t`
pub record Run (Double : Type 0) : Type 0 where
  pub pps : Double
  pub mbps : Double
  pub p95_ns : ℕ
  pub pkts_processed : ℕ
  pub bytes_processed : ℕ
  pub capture_elapsed_sec : Double
  pub pps_regressed : Bool
  pub mbps_regressed : Bool

module _ (F : Floating) where
  open F use {Double, of_u64, mul, div, lt}

  abbrev pub zero_run : Run Double
  zero_run = record {
    pps = of_u64 0;
    mbps = of_u64 0;
    p95_ns = 0;
    pkts_processed = 0;
    bytes_processed = 0;
    capture_elapsed_sec = of_u64 0;
    pps_regressed = false;
    mbps_regressed = false;
  }

  -- The array is only allocated for more than one run; `calloc` succeeds.
  unfoldable pub allocate_runs : ℕ → Option (List (Run Double))
  allocate_runs num_runs = if ltb 1 num_runs then some (replicate num_runs zero_run) else none

  -- 0.001 seconds at least.
  unfoldable pub elapsed_of : Snapshot Double → Double
  elapsed_of s =
      if lt s.capture_elapsed_sec (div (of_u64 1) (of_u64 1000))
      then div (of_u64 1) (of_u64 1000)
      else s.capture_elapsed_sec

  -- What a run's snapshot writes over the run's record.
  unfoldable pub run_of : Run Double → Snapshot Double → Run Double
  run_of r s = record r {
    pps = div (of_u64 s.pkts_processed) (elapsed_of s);
    mbps = div (mul (of_u64 s.bytes_processed) (of_u64 8)) (mul (elapsed_of s) (of_u64 1000000));
    p95_ns = percentile_ns F (some s) (of_u64 95);
    pkts_processed = s.pkts_processed;
    bytes_processed = s.bytes_processed;
    capture_elapsed_sec = elapsed_of s;
  }

  unfoldable pub store_run :
      Option (List (Run Double)) → ℕ → Snapshot Double → Option (Option (List (Run Double)))
  store_run none run_idx s = none
  store_run (some runs) run_idx s = get_elem? runs run_idx >>= λ r.
      store runs run_idx (run_of r s) >>= λ stored. some (some stored)

  -- The snapshots of the runs that took place, from run `run_idx` on.
  unfoldable pub run_loop :
      Option (List (Run Double)) → ℕ → List (Snapshot Double) → Option (Option (List (Run Double)))
  run_loop runs run_idx [] = some runs
  run_loop runs run_idx (s ∷ snapshots) = elim (store_run runs run_idx s) [
    | none ↦ none
    | some stored ↦ run_loop stored (run_idx + 1) snapshots
  ]

  -- From the allocation to the arrays of values, which are read out of the storage for every run.
  unfoldable pub measure : ℕ → List (Snapshot Double) → Option (List (Run Double))
  measure num_runs snapshots = run_loop (allocate_runs num_runs) 0 snapshots >>= λ runs. runs
