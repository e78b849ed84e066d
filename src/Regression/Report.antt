-- ===== src/Regression/Report.antt =====
-- `regression_print_report` of src/regression.c, as the text that it prints. `format` is what `printf`
-- makes of a conversion and a `double`; `isinf` and the test for `>= 0` are arguments.
use packet_analyzer.Prelude.{
  ℕ, sym, ◌∙◌, Bool-cases, inl, inr, ◌-◌, ◌≡◌, ◌≢◌, ◌↔◌, arith, Bool, true, ◌||◌, Option, none,
  some, List, [], ◌∷◌, ◌++◌, ltb, if◌then◌else◌, take, replicate, length, codes,
}
use packet_analyzer.Floating.{Floating}
use packet_analyzer.Metrics.Metadata.{Text}
use packet_analyzer.Metrics.Decimal.{printed}
use packet_analyzer.Metrics.Report.{joined}
use packet_analyzer.Metrics.Snapshot.{Snapshot}
use packet_analyzer.Regression.Baseline.{Baseline, Result}
use packet_analyzer.Regression.Compare.{compare, result_of, detected}

-- `%12s`
abbrev pub right_aligned : Text → Text
right_aligned t = replicate (12 - length t) 32 ++ t

-- A text that is printed only under a flag.
abbrev pub flagged : Bool → Text → List Text
flagged flag t = if flag then t ∷ [] else []

-- The regressions that the summary names.
unfoldable pub tags : {Double : Type 0} → Result Double → List Text
tags r =
    flagged r.pps_regression (codes " [throughput-pps]")
    ++ (flagged r.mbps_regression (codes " [throughput-mbps]")
        ++ (flagged r.latency_regression (codes " [latency-p95]")
            ++ flagged r.drop_regression (codes " [drop-rate]")))

abbrev pub rule : Text
rule = replicate 80 61

tags_iff :
    {Double : Type 0} (r : Result Double)
    → ((r.pps_regression || r.mbps_regression || r.latency_regression || r.drop_regression) ≡ true)
      ↔ (tags r ≢ [])
unfolding tags
tags_iff r = (
  λ h t. ground (arith, h, t),
  λ t.
      elim (Bool-cases
        (r.pps_regression || r.mbps_regression || r.latency_regression || r.drop_regression)) [
          | inl e ↦ e
          | inr e ↦ absurd (t (ground (arith, e)))
        ],
)

module _ (F : Floating) (format : Text → F.Double → Text)
    (isinf at_least_zero : F.Double → Bool) where
  open F use {Double, of_u64, div, mul}

  abbrev percent : Double → Double
  percent x = mul x (of_u64 100)

  -- `format_delta`, into an array of 64 bytes.
  unfoldable pub format_delta : Double → Bool → Text
  format_delta delta_pct is_regression =
      let indicator = if is_regression then codes "FAIL" else codes "OK" in
      take 63 (
        codes "["
        ++ (indicator
            ++ (if isinf delta_pct
                then codes "] N/A (baseline was 0)"
                else (codes "] "
                    ++ ((if at_least_zero delta_pct then codes "+" else [])
                        ++ (format (codes "%.2f") (percent delta_pct) ++ codes "%"))))))

  -- `format_latency_ns`, into an array of 32 bytes.
  unfoldable pub format_latency_ns : ℕ → Text
  format_latency_ns ns = take 31 (
      if ltb ns 1000
      then printed ns ++ codes " ns"
      else (if ltb ns 1000000
          then format (codes "%.2f") (div (of_u64 ns) (of_u64 1000)) ++ (32 ∷ 194 ∷ 181 ∷ codes "s")
          else (if ltb ns 1000000000
              then format (codes "%.2f") (div (of_u64 ns) (of_u64 1000000)) ++ codes " ms"
              else format (codes "%.2f") (div (of_u64 ns) (of_u64 1000000000)) ++ codes " s")))

  -- Baseline, current value and delta of one figure.
  abbrev figure : Text → Text → Text → Text → List Text
  figure title baseline current delta =
      title
      ∷ codes "  Baseline:  "
      ∷ baseline
      ∷ codes "\n  Current:   "
      ∷ current
      ∷ codes "\n  Delta:     "
      ∷ delta
      ∷ codes "\n\n"
      ∷ []

  abbrev summary : Result Double → List Text
  summary r =
      if r.any_regression
      then codes "RESULT: PERFORMANCE REGRESSION DETECTED\n  Regressions found in:"
        ∷ (tags r ++ (codes "\n" ∷ []))
      else codes "RESULT: ALL METRICS WITHIN THRESHOLD\n" ∷ []

  -- `regression_print_report`
  unfoldable pub print_report : Option (Result Double) → Text
  print_report none = []
  print_report (some r) = joined (
      codes "\n"
      ∷ rule
      ∷ codes "\n                         REGRESSION ANALYSIS REPORT\n"
      ∷ rule
      ∷ codes "\nThreshold: "
      ∷ format (codes "%.1f") (percent r.threshold)
      ∷ codes "%\n\n"
      ∷ (figure (codes "THROUGHPUT (packets/sec):\n")
            (format (codes "%12.2f") r.baseline_pps ++ codes " pps")
            (format (codes "%12.2f") r.current_pps ++ codes " pps")
            (format_delta r.pps_delta_pct r.pps_regression)
          ++ (figure (codes "THROUGHPUT (MB/sec):\n")
                (format (codes "%12.4f") r.baseline_mbps ++ codes " MB/s")
                (format (codes "%12.4f") r.current_mbps ++ codes " MB/s")
                (format_delta r.mbps_delta_pct r.mbps_regression)
              ++ (figure (codes "LATENCY (p95):\n")
                    (right_aligned (format_latency_ns r.baseline_p95_ns))
                    (right_aligned (format_latency_ns r.current_p95_ns))
                    (format_delta r.latency_delta_pct r.latency_regression)
                  ++ (figure (codes "DROP RATE:\n")
                        (format (codes "%12.4f") (percent r.baseline_drop_rate) ++ codes "%")
                        (format (codes "%12.4f") (percent r.current_drop_rate) ++ codes "%")
                        (format_delta r.drop_delta_pct r.drop_regression)
                      ++ (rule ∷ codes "\n" ∷ (summary r ++ (rule ∷ codes "\n\n" ∷ []))))))))

compare-any :
    (F : Floating) (b : Option (Baseline F.Double)) (s : Option (Snapshot F.Double))
    (threshold : F.Double) (r : Result F.Double)
    → compare F b s threshold ≡ some r
    → r.any_regression
      ≡ (r.pps_regression || r.mbps_regression || r.latency_regression || r.drop_regression)
unfolding compare result_of
compare-any F none s threshold r h = absurd cc
compare-any F (some b) none threshold r h = absurd cc
compare-any F (some b) (some s) threshold r h = ground (arith, h)

-- The report on a comparison that succeeded announces a regression exactly when `regression_detected`
-- says so, and then names at least one; otherwise it would have none to name.
pub compare-tags :
    (F : Floating) (b : Option (Baseline F.Double)) (s : Option (Snapshot F.Double))
    (threshold : F.Double) (r : Result F.Double)
    → compare F b s threshold ≡ some r
    → (detected F (some r) ≡ true) ↔ (tags r ≢ [])
unfolding detected
compare-tags F b s threshold r h =
    let any = compare-any F b s threshold r h in
    let named = tags_iff r in (λ e. named.0 (sym any ∙ e), λ t. any ∙ named.1 t)
