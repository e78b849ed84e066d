-- ===== src/Main/Exit.antt =====
-- When `main` reports a regression, and by which exit code.
use packet_analyzer.Prelude.{
  ℕ, ◌+◌, ◌*◌, ◌≤◌, ◌<◌, ◌≡◌, ◌↔◌, ◌⊎◌, refl, ap, arith, Bool, true, false, Option, some, List, [],
  ◌∷◌, map, if◌then◌else◌, length,
}
use packet_analyzer.Floating.{Floating}
use packet_analyzer.Metrics.Metadata.{Metadata}
use packet_analyzer.Regression.Baseline.{Baseline}
use packet_analyzer.Regression.Compatible.{validate_metadata}
use packet_analyzer.Main.Runs.{Run}
use packet_analyzer.Main.Sorted.{count}
use packet_analyzer.Main.Decision.{
  min_regressed_runs, Loaded, no_path, not_loaded, loaded, regressed, total_processed, mark,
  pps_regressed_count, mbps_regressed_count, any_persistent, exit_code,
}

min_regressed_runs-le : (n c : ℕ) → 0 < n → (min_regressed_runs n ≤ c) ↔ (3 * n ≤ 5 * c)
unfolding min_regressed_runs
min_regressed_runs-le n c h = (λ e. ground arith, λ e. ground arith)

module _ (F : Floating) where
  open F use {Double}

  -- How many of the runs are below the baseline by more than the threshold, in one figure.
  abbrev pub regressed_runs : Double → Double → List Double → ℕ
  regressed_runs base threshold values = count (regressed F base threshold) values

  -- At least 60% of the runs regress in packets or in bits per second.
  abbrev pub Persists : Baseline Double → Double → List (Run Double) → Type 0
  Persists b threshold runs =
      (3 * length runs
        ≤ 5 * regressed_runs b.pkts_processed_per_sec threshold (map (λ r. r.pps) runs))
      ⊎ (3 * length runs ≤ 5 * regressed_runs b.mbps_processed threshold (map (λ r. r.mbps) runs))

  -- A baseline was loaded, and it is as asked.
  abbrev pub OnBaseline : Loaded Double → (Baseline Double → Type 0) → Type 0
  OnBaseline no_path P = ⊥
  OnBaseline not_loaded P = ⊥
  OnBaseline (loaded b) P = P b

  pps_count :
      (b : Baseline Double) (t : Double) (runs : List (Run Double))
      → pps_regressed_count F (map (mark F b t) runs)
        ≡ regressed_runs b.pkts_processed_per_sec t (map (λ r. r.pps) runs)
  unfolding pps_regressed_count mark
  pps_count b t [] = refl
  pps_count b t (r ∷ runs) =
      ap (λ k. (if regressed F b.pkts_processed_per_sec t r.pps then 1 else 0) + k)
        (pps_count b t runs)

  mbps_count :
      (b : Baseline Double) (t : Double) (runs : List (Run Double))
      → mbps_regressed_count F (map (mark F b t) runs)
        ≡ regressed_runs b.mbps_processed t (map (λ r. r.mbps) runs)
  unfolding mbps_regressed_count mark
  mbps_count b t [] = refl
  mbps_count b t (r ∷ runs) =
      ap (λ k. (if regressed F b.mbps_processed t r.mbps then 1 else 0) + k) (mbps_count b t runs)

  any_persistent_iff :
      (b : Baseline Double) (t : Double) (runs : List (Run Double))
      → 0 < length runs
      → (any_persistent F b t runs ≡ true) ↔ Persists b t runs
  unfolding any_persistent
  any_persistent_iff b t runs ne =
      let n = length runs in
      let pps = pps_count b t runs in
      let mbps = mbps_count b t runs in
      let by_pps = min_regressed_runs-le n (pps_regressed_count F (map (mark F b t) runs)) ne in
      let by_mbps = min_regressed_runs-le n (mbps_regressed_count F (map (mark F b t) runs)) ne in
      (
        λ h. ground (arith, pps, mbps, by_pps.0, by_mbps.0),
        λ h. ground (arith, pps, mbps, by_pps.1, by_mbps.1),
      )

  -- `main` exits with 3 exactly when fewer packets were processed than the minimum; with 4 exactly
  -- when there were enough, the baseline loaded and is not compatible, and `--fail-on-regression` is
  -- given; with 2 exactly when there were enough, the loaded baseline is compatible, the flag is given
  -- and at least 60% of the runs regressed in packets or in bits per second; and with 0 otherwise. At
  -- least one run is stored.
  pub exit_code_iff :
      (runs : List (Run Double)) (min_packets : ℕ) (baseline : Loaded Double)
      (current : Option Metadata) (fail : Bool) (t : Double)
      → 0 < length runs
      → let code = exit_code F runs min_packets baseline current fail t in
        let enough = min_packets ≤ total_processed F runs 0 in
        ((code ≡ 3) ↔ (total_processed F runs 0 < min_packets))
        × ((code ≡ 4) ↔ (
            enough
            × (fail ≡ true)
            × OnBaseline baseline
                (λ b. (validate_metadata (some b.metadata) current).compatible ≡ false)))
        × ((code ≡ 2) ↔ (
            enough
            × (fail ≡ true)
            × OnBaseline baseline (λ b.
              ((validate_metadata (some b.metadata) current).compatible ≡ true)
              × Persists b t runs)))
        × ((code ≡ 0) ⊎ (code ≡ 2) ⊎ (code ≡ 3) ⊎ (code ≡ 4))
  unfolding exit_code
  exit_code_iff runs min_packets no_path current fail t ne = (
    (λ h. ground arith, λ h. ground arith),
    (λ h. ground arith, λ h. ground arith),
    (λ h. ground arith, λ h. ground arith),
    ground arith,
  )
  exit_code_iff runs min_packets not_loaded current fail t ne = (
    (λ h. ground arith, λ h. ground arith),
    (λ h. ground arith, λ h. ground arith),
    (λ h. ground arith, λ h. ground arith),
    ground arith,
  )
  exit_code_iff runs min_packets (loaded b) current fail t ne =
      let persistent = any_persistent_iff b t runs ne in
      (
        (λ h. ground arith, λ h. ground arith),
        (λ h. ground arith, λ h. ground arith),
        (λ h. ground (arith, persistent.0), λ h. ground (arith, persistent.1)),
        ground arith,
      )
