-- ===== src/Main/Decision.antt =====
-- The end of `main`: the medians, the sample size, the comparison with the baseline and the exit
-- code.
use packet_analyzer.Prelude.{
  ℕ, ◌+◌, ◌*◌, ◌/◌, Bool, ◌||◌, Option, some, List, [], ◌∷◌, map, ltb, leb, if◌then◌else◌, length,
  u64,
}
use packet_analyzer.Floating.{Floating}
use packet_analyzer.Metrics.Metadata.{Metadata}
use packet_analyzer.Regression.Baseline.{Baseline}
use packet_analyzer.Regression.Compatible.{validate_metadata}
use packet_analyzer.Main.Runs.{Run}
use packet_analyzer.Main.Median.{median_double, median_uint64}

-- `EXIT_REGRESSION`, `EXIT_INSUFFICIENT_SAMPLE` and `EXIT_CONFIG_MISMATCH`
abbrev pub exit_regression : ℕ
exit_regression = 2

abbrev pub exit_insufficient_sample : ℕ
exit_insufficient_sample = 3

abbrev pub exit_config_mismatch : ℕ
exit_config_mismatch = 4

-- 60% of the runs, rounded up, and at least one.
unfoldable pub min_regressed_runs : ℕ → ℕ
min_regressed_runs num_runs = if ltb ((num_runs * 3 + 4) / 5) 1 then 1 else (num_runs * 3 + 4) / 5

-- What `--baseline` came to: no path, a file that does not load, or a baseline.
pub data Loaded (Double : Type 0) : Type 0 where
  no_path not_loaded : Loaded Double
  loaded : Baseline Double → Loaded Double

module _ (F : Floating) where
  open F use {Double, sub, div, neg, lt}

  -- `(value - baseline) / baseline < -threshold`
  unfoldable pub gap : Double → Double → Double
  gap baseline value = div (sub value baseline) baseline

  unfoldable pub regressed : Double → Double → Double → Bool
  regressed baseline threshold value = lt (gap baseline value) (neg threshold)

  unfoldable pub median_pps : List (Run Double) → Double
  median_pps runs = median_double F (map (λ r. r.pps) runs) (length runs)

  unfoldable pub median_mbps : List (Run Double) → Double
  median_mbps runs = median_double F (map (λ r. r.mbps) runs) (length runs)

  unfoldable pub median_p95 : List (Run Double) → ℕ
  median_p95 runs = median_uint64 (map (λ r. r.p95_ns) runs) (length runs)

  -- `total_pkts_processed`
  unfoldable pub total_processed : List (Run Double) → ℕ → ℕ
  total_processed [] sum = sum
  total_processed (r ∷ runs) sum = total_processed runs (u64 (sum + r.pkts_processed))

  -- The flags that the loop over the runs stores in them.
  unfoldable pub mark : Baseline Double → Double → Run Double → Run Double
  mark b threshold r = record r {
    pps_regressed = regressed b.pkts_processed_per_sec threshold r.pps;
    mbps_regressed = regressed b.mbps_processed threshold r.mbps;
  }

  unfoldable pub pps_regressed_count : List (Run Double) → ℕ
  pps_regressed_count [] = 0
  pps_regressed_count (r ∷ runs) = (if r.pps_regressed then 1 else 0) + pps_regressed_count runs

  unfoldable pub mbps_regressed_count : List (Run Double) → ℕ
  mbps_regressed_count [] = 0
  mbps_regressed_count (r ∷ runs) = (if r.mbps_regressed then 1 else 0) + mbps_regressed_count runs

  unfoldable pub any_persistent : Baseline Double → Double → List (Run Double) → Bool
  any_persistent b threshold runs =
      let marked = map (mark b threshold) runs in
      leb (min_regressed_runs (length runs)) (pps_regressed_count marked)
      || leb (min_regressed_runs (length runs)) (mbps_regressed_count marked)

  -- The exit code, for the runs that `main` has stored and the metadata that it has set.
  unfoldable pub exit_code :
      List (Run Double) → ℕ → Loaded Double → Option Metadata → Bool → Double → ℕ
  exit_code runs min_packets baseline current fail_on_regression threshold =
      if leb min_packets (total_processed runs 0)
      then elim baseline [
        | no_path ↦ 0
        | not_loaded ↦ 0
        | loaded b ↦
            if (validate_metadata (some b.metadata) current).compatible
            then (if any_persistent b threshold runs
                then (if fail_on_regression then exit_regression else 0)
                else 0)
            else (if fail_on_regression then exit_config_mismatch else 0)
      ]
      else exit_insufficient_sample
