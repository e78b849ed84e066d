-- ===== src/Regression/ReloadTests.antt =====
-- A small snapshot, its text, and what is loaded from it.
use packet_analyzer.Prelude.{ℕ, ◌≡◌, refl, arith, true, false, some, [], ◌∷◌, codes}
use packet_analyzer.Prelude.Int.{ℤ, pos, negsuc}
use packet_analyzer.Floating.Whole.{whole, whole-Monotone, whole-Scaling}
use packet_analyzer.Metrics.Counters.{Metrics, init}
use packet_analyzer.Metrics.Decimal.{printed, printed_int, digits_loop}
use packet_analyzer.Metrics.Metadata.{Text, Metadata}
use packet_analyzer.Metrics.Snapshot.{snapshot, percentile_ns}
use packet_analyzer.Metrics.Json.{uint, string, bare, written, render, snapshot_json}
use packet_analyzer.Regression.Baseline.{Baseline, Result}
use packet_analyzer.Regression.Compare.{compare, current_p95, current_drop_rate}
use packet_analyzer.Regression.Compatible.{validate_metadata}
use packet_analyzer.Regression.SavedRun.{Unchanged, compare-snapshot_json}
use packet_analyzer.Regression.Load.{load_baseline}
use packet_analyzer.Regression.RoundTrip.{Writable}
use packet_analyzer.Regression.Reload.{Finite, Reloaded, load_baseline-snapshot_json}

three_lines :
    written
      (bare (codes "{\n")
        ∷ uint 2 (codes "a") 340 false
        ∷ string 2 (codes "b") (codes "x") true
        ∷ [])
      (codes "}\n")
    ≡ codes "{\n  \"a\": 340,\n  \"b\": \"x\"\n}\n"
unfolding written render printed digits_loop
three_lines = refl

minus_twelve : printed_int (negsuc 11) ≡ codes "-12"
unfolding printed_int printed digits_loop
minus_twelve = refl

abbrev counted : Metrics
unfolding init
counted = record init { pkts_processed = 340; queue_drops = 7 }

abbrev described : Metadata
described = record {
  interface = codes "en0";
  filter = codes "none";
  os = codes "Linux";
  git_sha = [];
  traffic_mode = codes "none";
  traffic_target = codes "8.8.8.8";
  threads = pos 4;
  bpf_buffer_size = pos 0;
  duration_sec = negsuc 0;
  warmup_sec = pos 0;
  traffic_rate = pos 0;
  valid = true;
}

abbrev one_half : ℕ → ℤ → Text
one_half places x = codes "1.5"

abbrev zero_read : Text → ℤ
zero_read text = pos 0

described-Writable : Writable described
described-Writable = record {
  interface = (refl, omega arith, refl);
  filter = (refl, omega arith, refl);
  os = (refl, omega arith, refl);
  git_sha = (refl, omega arith, refl);
  traffic_mode = (refl, omega arith, refl);
  traffic_target = (refl, omega arith, refl);
  threads = omega arith;
  bpf_buffer_size = omega arith;
  duration_sec = omega arith;
  warmup_sec = omega arith;
  traffic_rate = omega arith;
  valid = refl;
}

counted-Finite : Finite whole one_half (snapshot whole counted 9)
counted-Finite = record {
  timestamp = refl;
  elapsed = refl;
  capture_elapsed = refl;
  pps = refl;
  mbps = refl;
}

load_baseline-snapshot_json_example :
    (b : Baseline ℤ) × (load_baseline whole zero_read
        (snapshot_json whole one_half true true counted 9 (pos 0) (pos 0) (pos 0) described)
      ≡ some b)
    × Reloaded whole one_half (snapshot whole counted 9) (pos 0) described b
unfolding init percentile_ns snapshot
load_baseline-snapshot_json_example =
    load_baseline-snapshot_json whole one_half zero_read counted 9 (pos 0) (pos 0) (pos 0) described
      counted-Finite described-Writable (omega arith) (omega arith) (omega arith) (omega arith)
      (omega arith) (omega arith) (omega arith)

compare-snapshot_json_example :
    (b : Baseline ℤ) × (r : Result ℤ) × (load_baseline whole zero_read
        (snapshot_json whole one_half true true counted 9 (pos 0) (pos 0) (pos 0) described)
      ≡ some b)
    × (compare whole (some b) (some (snapshot whole counted 9)) (pos 0) ≡ some r)
    × ((validate_metadata (some b.metadata) (some described)).compatible ≡ true)
    × Unchanged whole whole-Monotone whole-Scaling one_half r
unfolding init percentile_ns snapshot current_p95 current_drop_rate
compare-snapshot_json_example =
    compare-snapshot_json whole whole-Monotone whole-Scaling one_half zero_read counted 9 (pos 0)
      (pos 0) (pos 0) described counted-Finite described-Writable (omega arith) (omega arith)
      (omega arith) (omega arith) (omega arith) (omega arith) (omega arith) refl refl refl refl refl
