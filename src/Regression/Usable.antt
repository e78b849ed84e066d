-- ===== src/Regression/Usable.antt =====
-- What a loaded baseline is good for.
use packet_analyzer.Prelude.{◌<◌, ◌≡◌, ◌⊎◌, inl, inr, arith, true, false, Bool-cases, none, some}
use packet_analyzer.Floating.{Floating}
use packet_analyzer.Metrics.Metadata.{Text}
use packet_analyzer.Metrics.Snapshot.{Snapshot}
use packet_analyzer.Regression.Baseline.{Baseline}
use packet_analyzer.Regression.Compare.{compare, result_of}
use packet_analyzer.Regression.Load.{baseline_of, load_baseline}

module _ (F : Floating) (strtod : Text → F.Double) where
  open F use {Double, of_u64, lt}

  -- A file is accepted exactly if it gives a positive packet rate or a positive number of processed
  -- packets; a baseline that is accepted can be compared with every run at every threshold.
  pub load_baseline-compare :
      (json : Text) (s : Snapshot Double) (t : Double)
      → ((load_baseline F strtod (some json) ≡ none)
          × (lt (of_u64 0) (baseline_of F strtod json).pkts_processed_per_sec ≡ false)
          × ((baseline_of F strtod json).pkts_processed ≡ 0))
        ⊎ ((b : Baseline Double) × (load_baseline F strtod (some json) ≡ some b)
            × ((lt (of_u64 0) b.pkts_processed_per_sec ≡ true) ⊎ (0 < b.pkts_processed))
            × (compare F (some b) (some s) t ≡ some (result_of F b s t)))
  unfolding load_baseline baseline_of compare
  load_baseline-compare json s t = elim (Bool-cases (baseline_of F strtod json).valid) [
    | inl v ↦
        inr (baseline_of F strtod json, ground (arith, v), ground (arith, v), ground (arith, v))
    | inr v ↦ inl (ground (arith, v), ground (arith, v), ground (arith, v))
  ]
